-- ===== src/Channel/Names.antt =====
-- How a channel is found by name.
use cliveserver.Base.{
  ℕ, ◌≡◌, refl, ap, ◌∙◌, inl, inr, Bool, true, false, Option, none, some, List, [], ◌∷◌, ◌++◌,
  Bool-cases,
}
use mathlib.Core.Option.{some-injective}
use cliveserver.Text.{starts_with}
use cliveserver.Text.Find.{starts_with-split, starts_with-append}
use cliveserver.Channel.{
  Channel, find_loop, existed_loop, clive_channel_find, clive_channel_is_existed, clive_channel_add,
}

abbrev pub is_some : {A : Type 0} → Option A → Bool
is_some none = false
is_some (some a) = true

-- none of these channels has a name that `name` begins with
abbrev pub NoneNamed : List ℕ → List Channel → Type 0
NoneNamed name [] = Unit {0}
NoneNamed name (c ∷ cs) = (starts_with name c.channel_name ≡ false) × NoneNamed name cs

loops_agree :
    (channels : List Channel) (name : List ℕ)
    → existed_loop channels name ≡ is_some (find_loop channels name)
unfolding existed_loop find_loop
loops_agree [] name = refl
loops_agree (c ∷ cs) name = elim (Bool-cases (starts_with name c.channel_name)) [
  | inl e ↦ rw e refl
  | inr e ↦ rw e (loops_agree cs name)
]

-- `c` stands in the list behind channels with other names, and its name begins `name`.
pub record FoundIn (channels : List Channel) (name : List ℕ) (c : Channel) : Type 0 where
  pub before : List Channel
  pub after : List Channel
  pub rest : List ℕ
  pub place : channels ≡ before ++ c ∷ after
  pub named : name ≡ c.channel_name ++ rest
  pub others : NoneNamed name before

found :
    (channels : List Channel) (name : List ℕ) (c : Channel)
    → find_loop channels name ≡ some c
    → FoundIn channels name c
unfolding find_loop
found [] name c h = cc
found (p ∷ channels) name c h = elim (Bool-cases (starts_with name p.channel_name)) [
  | inl e ↦
      let same : p ≡ c = some-injective p c (rw e at h) in
      let (rest, split) = starts_with-split p.channel_name name e in
      record {
        before = [];
        after = channels;
        rest = rest;
        place = ap (λ q. q ∷ channels) same;
        named = split ∙ ap (λ q. q.channel_name ++ rest) same;
        others = tt;
      }
  | inr e ↦
      let later = found channels name c (rw e at h) in
      record {
        before = p ∷ later.before;
        after = later.after;
        rest = later.rest;
        place = ap (λ l. p ∷ l) later.place;
        named = later.named;
        others = (e, later.others);
      }
]

-- What the search by a name finds is the oldest channel whose name begins it, and the test for
-- existence then succeeds.
pub clive_channel_find-FoundIn :
    (channels : List Channel) (name : List ℕ) (c : Channel)
    → clive_channel_find channels (some name) ≡ some c
    → FoundIn channels name c × (clive_channel_is_existed channels (some name) ≡ true)
unfolding clive_channel_find clive_channel_is_existed
clive_channel_find-FoundIn channels name c h =
    (found channels name c h, loops_agree channels name ∙ ap is_some h)

-- The test for existence succeeds exactly when the search finds a channel, also for NULL.
pub clive_channel_is_existed-find :
    (channels : List Channel) (name : Option (List ℕ))
    → clive_channel_is_existed channels name ≡ is_some (clive_channel_find channels name)
unfolding clive_channel_find clive_channel_is_existed
clive_channel_is_existed-find channels none = refl
clive_channel_is_existed-find channels (some name) = loops_agree channels name

-- After a successful addition a channel exists under every name that the added channel's name
-- begins.
pub find-add :
    (channels : List Channel) (channel : Channel) (rest : List ℕ)
    → clive_channel_is_existed
        (clive_channel_add channels (some channel) true).1
        (some (channel.channel_name ++ rest))
      ≡ true
unfolding clive_channel_is_existed clive_channel_add existed_loop
find-add [] channel rest = rw (starts_with-append channel.channel_name rest) refl
find-add (c ∷ cs) channel rest =
    elim (Bool-cases (starts_with (channel.channel_name ++ rest) c.channel_name)) [
      | inl e ↦ rw e refl
      | inr e ↦ rw e (find-add cs channel rest)
    ]
