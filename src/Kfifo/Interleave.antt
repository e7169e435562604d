-- ===== src/Kfifo/Interleave.antt =====
-- A put and a get of one ring, interleaved step by step, pass on every byte once and in order.
use cliveserver.Base.{
  ℕ, ◌-◌, ◌≤◌, ◌≡◌, sym, ap, ◌∙◌, List, [], ◌++◌, append-nil, append_assoc, length, take, drop,
  arith, take-append_within, take-append-drop,
}
use mathlib.Core.Path.{subst, ap₂}
use cliveserver.Kfifo.{Kfifo, len, reset_if_empty}
use cliveserver.Kfifo.Window.{window, length-window}
use cliveserver.Kfifo.Inv.{IsValid, contents}
use cliveserver.Kfifo.Get.{contents-reset, reset-IsValid}
use cliveserver.Kfifo.Threads.{
  Producer, producer_idle, measured, filled, Consumer, consumer_idle, counted, fetched, Threads,
  Step, measure, fill, publish, count, fetch, release, reset, Reachable, begin, next, copy_in,
  publish_in, publish_out,
}
use cliveserver.Kfifo.Halves.{
  put_room-le, get_room-le, contents-copy_in, behind-copy_in, len-copy_in, copy_in-IsValid,
  len-publish_in, contents-publish_in, publish_in-IsValid, copy_out-take, contents-publish_out,
  publish_out-IsValid, len-publish_out,
}

-- what a thread in the middle of a call relies on
abbrev pub Fits : Kfifo → List ℕ → ℕ → Type 0
Fits fifo source n = (n ≤ length source) × (n ≤ fifo.size - len fifo)

abbrev pub Producing : Kfifo → Producer → Type 0
Producing fifo producer_idle = Unit {0}
Producing fifo (measured source n) = Fits fifo source n
Producing fifo (filled source n) =
    Fits fifo source n × (window fifo.size fifo.buffer fifo.in_offset n ≡ take n source)

abbrev pub Consuming : Kfifo → Consumer → Type 0
Consuming fifo consumer_idle = Unit {0}
Consuming fifo (counted n) = n ≤ len fifo
Consuming fifo (fetched n bytes) = (n ≤ len fifo) × (bytes ≡ take n (contents fifo))

pub record Sound (k : ℕ) (start : Kfifo) (s : Threads) : Type 0 where
  pub valid : IsValid k s.fifo
  pub history : contents start ++ s.sent ≡ s.received ++ contents s.fifo
  pub producing : Producing s.fifo s.producer
  pub consuming : Consuming s.fifo s.consumer

-- More bytes behind the contents do not disturb a get.
Consuming-grows :
    (fifo fifo' : Kfifo) (more : List ℕ) (c : Consumer)
    → len fifo ≤ len fifo'
    → contents fifo' ≡ contents fifo ++ more
    → Consuming fifo c
    → Consuming fifo' c
Consuming-grows fifo fifo' more consumer_idle le e ok = tt
Consuming-grows fifo fifo' more (counted n) le e ok = omega (arith, le, ok)
Consuming-grows fifo fifo' more (fetched n bytes) le e (small, took) = (
  omega (arith, le, small),
  took
      ∙ sym (
          take-append_within n (contents fifo) more
            (omega (arith, small, length-window fifo.size fifo.buffer fifo.out_offset (len fifo))))
      ∙ ap (take n) (sym e),
)

-- More room does not disturb a put.
Producing-frees :
    (fifo : Kfifo) (n : ℕ) (p : Producer)
    → len (publish_out fifo n) ≤ len fifo
    → Producing fifo p
    → Producing (publish_out fifo n) p
unfolding publish_out
Producing-frees fifo n producer_idle le ok = tt
Producing-frees fifo n (measured source m) le (given, small) = (given, omega (arith, le, small))
Producing-frees fifo n (filled source m) le ((given, small), there) =
    ((given, omega (arith, le, small)), there)

step-Sound : (k : ℕ) (start : Kfifo) (s t : Threads) → Sound k start s → Step s t → Sound k start t
unfolding copy_in len
step-Sound k start s t i (measure source wanted at given) =
    let bound = put_room-le i.valid wanted in
    record {
      valid = i.valid;
      history = i.history;
      producing = (omega (arith, bound.0, given), bound.1);
      consuming = i.consuming;
    }
step-Sound k start s t i (fill source n at) =
    let (given, small) = subst (Producing s.fifo) at i.producing in
    let same = contents-copy_in i.valid source n given small in
    record {
      valid = copy_in-IsValid i.valid source n given small;
      history = i.history ∙ ap (λ r. s.received ++ r) (sym same);
      producing = ((given, small), behind-copy_in i.valid source n given small);
      consuming =
          Consuming-grows s.fifo (copy_in s.fifo source n) [] s.consumer
            (omega (arith, len-copy_in i.valid source n given small))
            (same ∙ sym (append-nil (contents s.fifo))) i.consuming;
    }
step-Sound k start s t i (publish source n at) =
    let ((given, small), there) = subst (Producing s.fifo) at i.producing in
    let grown = contents-publish_in i.valid (take n source) n small there in
    record {
      valid = publish_in-IsValid i.valid (take n source) n small there;
      history =
          sym (append_assoc (contents start) s.sent (take n source))
          ∙ ap (λ r. r ++ take n source) i.history
          ∙ append_assoc s.received (contents s.fifo) (take n source)
          ∙ ap (λ r. s.received ++ r) (sym grown);
      producing = tt;
      consuming =
          Consuming-grows s.fifo (publish_in s.fifo n) (take n source) s.consumer
            (omega (arith, len-publish_in i.valid (take n source) n small there)) grown i.consuming;
    }
step-Sound k start s t i (count wanted at) = record {
  valid = i.valid;
  history = i.history;
  producing = i.producing;
  consuming = get_room-le i.valid wanted;
}
step-Sound k start s t i (fetch n at) =
    let ok = subst (Consuming s.fifo) at i.consuming in
    record {
      valid = i.valid;
      history = i.history;
      producing = i.producing;
      consuming = (ok, copy_out-take i.valid n ok);
    }
step-Sound k start s t i (release n bytes at) =
    let (small, took) = subst (Consuming s.fifo) at i.consuming in
    let rest = contents-publish_out i.valid n small in
    record {
      valid = publish_out-IsValid i.valid n small;
      history =
          i.history
          ∙ ap (λ r. s.received ++ r) (sym (take-append-drop n (contents s.fifo)))
          ∙ sym (append_assoc s.received (take n (contents s.fifo)) (drop n (contents s.fifo)))
          ∙ ap₂ (λ b r. (s.received ++ b) ++ r) (sym took) (sym rest);
      producing =
          Producing-frees s.fifo n s.producer (omega (arith, len-publish_out i.valid n small))
            i.producing;
      consuming = tt;
    }
step-Sound k start s t i (reset at at') = record {
  valid = reset-IsValid i.valid;
  history = i.history ∙ ap (λ r. s.received ++ r) (sym (contents-reset i.valid));
  producing = subst (Producing (reset_if_empty s.fifo)) (sym at) tt;
  consuming = subst (Consuming (reset_if_empty s.fifo)) (sym at') tt;
}

reachable-Sound :
    (k : ℕ) (start : Kfifo) (s : Threads) → IsValid k start → Reachable start s → Sound k start s
reachable-Sound k start s v begin = record {
  valid = v;
  history = append-nil (contents start);
  producing = tt;
  consuming = tt;
}
reachable-Sound k start s v (next {s = p} run step) =
    step-Sound k start p s (reachable-Sound k start p v run) step

-- From a valid ring, whatever the interleaving of the steps of puts and gets, and of resets while
-- neither thread is in a call: the ring stays valid, and the bytes that were in it at the start
-- followed by those put so far are those handed out so far followed by those in the ring.
pub threads-history :
    (k : ℕ) (start : Kfifo) (s : Threads)
    → IsValid k start
    → Reachable start s
    → IsValid k s.fifo × (contents start ++ s.sent ≡ s.received ++ contents s.fifo)
threads-history k start s v run = let i = reachable-Sound k start s v run in (i.valid, i.history)
