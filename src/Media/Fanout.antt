-- ===== src/Media/Fanout.antt =====
-- `do_pack_ts2ts`: every pad gets the bytes, and nothing else changes.
use cliveserver.Base.{
  ℕ, ◌-◌, ◌≡◌, refl, ◌∙◌, inl, inr, Bool, true, false, ◌||◌, List, [], ◌∷◌, ◌++◌, min, ◌==◌, length,
  take, arith, Bool-cases, ==_self, ==_iff,
}
use cliveserver.Kfifo.{Kfifo, len, put}
use cliveserver.Kfifo.Inv.{IsValid, contents}
use cliveserver.Kfifo.Put.{contents-put, put-IsValid}
use cliveserver.Media.{update, pack_pads}

abbrev pub has : ℕ → List ℕ → Bool
has p [] = false
has p (q ∷ qs) = (p == q) || has p qs

abbrev pub Distinct : List ℕ → Type 0
Distinct [] = Unit {0}
Distinct (p ∷ ps) = (has p ps ≡ false) × Distinct ps

-- the bytes that fit into a ring
abbrev pub fitting : Kfifo → List ℕ → List ℕ
fitting fifo bytes = take (min (length bytes) (fifo.size - len fifo)) bytes

-- A ring that is no pad is untouched.
pub pack_pads_other :
    (fifos : ℕ → Kfifo) (pads bytes : List ℕ) (p : ℕ)
    → has p pads ≡ false
    → pack_pads fifos pads bytes p ≡ fifos p
unfolding pack_pads
pack_pads_other fifos [] bytes p out = refl
pack_pads_other fifos (q ∷ pads) bytes p out =
    pack_pads_other (update fifos q (put (fifos q) bytes (length bytes)).1) pads bytes p
      (ground arith)
    ∙ ground arith

-- A valid ring among distinct pads holds behind its bytes what fits of the new ones, and stays valid.
pub pack_pads_pad :
    (k : ℕ) (fifos : ℕ → Kfifo) (pads bytes : List ℕ) (p : ℕ)
    → Distinct pads
    → has p pads ≡ true
    → IsValid k (fifos p)
    → (contents (pack_pads fifos pads bytes p) ≡ contents (fifos p) ++ fitting (fifos p) bytes)
      × IsValid k (pack_pads fifos pads bytes p)
unfolding pack_pads
pack_pads_pad k fifos [] bytes p d h v = cc
pack_pads_pad k fifos (q ∷ pads) bytes p d h v = elim (Bool-cases (p == q)) [
  | inl e ↦
      let same : p ≡ q = (==_iff p q).0 e in
      let v' : IsValid k (fifos q) = rw same at v in
      let last : pack_pads (update fifos q (put (fifos q) bytes (length bytes)).1) pads bytes q
          ≡ (put (fifos q) bytes (length bytes)).1 =
        pack_pads_other (update fifos q (put (fifos q) bytes (length bytes)).1) pads bytes q d.0
        ∙ rw (==_self q) refl in
      rw (same, last)
        (
          contents-put v' bytes (length bytes) (omega arith),
          put-IsValid v' bytes (length bytes) (omega arith),
        )
  | inr e ↦
      let ih =
        pack_pads_pad k (update fifos q (put (fifos q) bytes (length bytes)).1) pads bytes p d.1
          (ground arith) (rw e v) in
      rw e at ih
]
