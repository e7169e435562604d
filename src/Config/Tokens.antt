-- ===== src/Config/Tokens.antt =====
-- The walk over the tokens of a value of JSON stays inside them: it counts the tokens that are left by
-- the sizes of the containers that it meets.
use cliveserver.Base.{
  ℕ, suc, ◌+◌, ◌≡◌, ◌≢◌, refl, sym, ap, ◌∙◌, Bool, true, false, none, List, [], ◌∷◌, ◌++◌,
  append_assoc, append-nil, if◌then◌else◌, arith,
}
use mathlib.Core.Path.{subst}
use cliveserver.Config.{
  Token, State, start_state, CfgStore, Setup, Next, stop, crash, go_on, on_token, is_container,
  remaining, Ending, finished, refused, outside, no_token, walk, configure,
}

-- a value of JSON: a token, and behind that of an object or array its members
mutual
  pub data Value : Type 0 where
    value : Token → Values → Value

  pub data Values : Type 0 where
    no_values : Values
    values : Value → Values → Values

unfoldable pub number : Values → ℕ
number no_values = 0
number (values v vs) = suc (number vs)

-- the tokens in the order in which jsmn gives them
unfoldable mutual
  pub tokens_of : Value → List Token
  tokens_of (value t vs) = t ∷ tokens_of_all vs

  pub tokens_of_all : Values → List Token
  tokens_of_all no_values = []
  tokens_of_all (values v vs) = tokens_of v ++ tokens_of_all vs

-- the size of a container is the number of its members; any other token has none
unfoldable mutual
  pub IsSized : Value → Type 0
  IsSized (value t vs) = ((if is_container t.type then t.size else 0) ≡ number vs) × AreSized vs

  pub AreSized : Values → Type 0
  AreSized no_values = Unit {0}
  AreSized (values v vs) = IsSized v × AreSized vs

abbrev pub inside : Ending → Bool
inside no_token = false
inside _ = true

-- Whatever the buffer and the state, the walk reads no token behind either list, and the same in both.
abbrev pub SameWalk : List Token → List Token → ℕ → Type 0
SameWalk ts ts' j =
    (js : List ℕ) (state : State) (temp : CfgStore)
    → (walk ts j js state temp ≡ walk ts' j js state temp)
      × (inside (walk ts j js state temp).0 ≡ true)

abbrev continue : List Token → ℕ → Next → Ending × List Setup
continue ts j stop = (refused, [])
continue ts j crash = (outside, [])
continue ts j (go_on js state temp channels) =
    ((walk ts j js state temp).0, channels ++ (walk ts j js state temp).1)

walk-next :
    (t : Token) (ts : List Token) (j : ℕ) (js : List ℕ) (state : State) (temp : CfgStore) (n : Next)
    → on_token js state temp t ≡ n
    → walk (t ∷ ts) (suc j) js state temp ≡ continue ts (remaining j t) n
unfolding walk
walk-next t ts j js state temp stop e = rw (walk, e) refl
walk-next t ts j js state temp crash e = rw (walk, e) refl
walk-next t ts j js state temp (go_on js' state' temp' channels) e = rw (walk, e) refl

walk-cons :
    (t : Token) (ts : List Token) (j : ℕ) (js : List ℕ) (state : State) (temp : CfgStore)
    → walk (t ∷ ts) (suc j) js state temp ≡ continue ts (remaining j t) (on_token js state temp t)
walk-cons t ts j js state temp = walk-next t ts j js state temp (on_token js state temp t) refl

continue_same :
    (ts ts' : List Token) (j : ℕ) (next : Next)
    → SameWalk ts ts' j
    → (continue ts j next ≡ continue ts' j next) × (inside (continue ts j next).0 ≡ true)
continue_same ts ts' j stop same = (refl, refl)
continue_same ts ts' j crash same = (refl, refl)
continue_same ts ts' j (go_on js state temp channels) same =
    let (equal, ends) = same js state temp in (ap (λ r. (r.0, channels ++ r.1)) equal, ends)

token_same :
    (t : Token) (ts ts' : List Token) (j : ℕ)
    → SameWalk ts ts' (remaining j t)
    → SameWalk (t ∷ ts) (t ∷ ts') (suc j)
token_same t ts ts' j same js state temp =
    rw (walk-cons t ts j js state temp, walk-cons t ts' j js state temp)
      (continue_same ts ts' (remaining j t) (on_token js state temp t) same)

remaining-number :
    (t : Token) (j n : ℕ) → (if is_container t.type then t.size else 0) ≡ n → remaining j t ≡ n + j
remaining-number t j n e = ground (arith, e)

SameWalk-here : (ts ts' : List Token) → SameWalk ts ts' 0
unfolding walk
SameWalk-here ts ts' js state temp = (refl, refl)

mutual
  unfolding IsSized AreSized tokens_of tokens_of_all number

  value_same :
      (v : Value) (ts ts' : List Token) (j : ℕ)
      → IsSized v
      → SameWalk ts ts' j
      → SameWalk (tokens_of v ++ ts) (tokens_of v ++ ts') (suc j)
  value_same (value t vs) ts ts' j (sized, all) same =
      token_same t (tokens_of_all vs ++ ts) (tokens_of_all vs ++ ts') j (
        subst (SameWalk (tokens_of_all vs ++ ts) (tokens_of_all vs ++ ts'))
          (sym (remaining-number t j (number vs) sized)) (values_same vs ts ts' j all same))

  values_same :
      (vs : Values) (ts ts' : List Token) (j : ℕ)
      → AreSized vs
      → SameWalk ts ts' j
      → SameWalk (tokens_of_all vs ++ ts) (tokens_of_all vs ++ ts') (number vs + j)
  values_same no_values ts ts' j all same =
      subst (SameWalk ts ts') {x = j} {y = 0 + j} (omega arith) same
  values_same (values v vs) ts ts' j (one, all) same =
      rw
        (
          append_assoc (tokens_of v) (tokens_of_all vs) ts,
          append_assoc (tokens_of v) (tokens_of_all vs) ts',
        )
        (subst
          (SameWalk (tokens_of v ++ (tokens_of_all vs ++ ts))
            (tokens_of v ++ (tokens_of_all vs ++ ts')))
          {x = suc (number vs + j)} {y = suc (number vs) + j} (omega arith)
          (value_same v (tokens_of_all vs ++ ts) (tokens_of_all vs ++ ts') (number vs + j) one
            (values_same vs ts ts' j all same)))

inside-token : (e : Ending) → inside e ≡ true → e ≢ no_token
inside-token finished i e = ground (arith, e)
inside-token refused i e = ground (arith, e)
inside-token outside i e = ground (arith, e)
inside-token no_token i e = ground (arith, i)

-- For a value whose containers have the right sizes, the walk over its tokens ends without a token
-- that is not there, and whatever stands behind its tokens makes no difference.
pub configure-tokens_of :
    (v : Value) (behind : List Token) (js : List ℕ)
    → IsSized v
    → (configure (tokens_of v ++ behind) js ≡ configure (tokens_of v) js)
      × ((configure (tokens_of v) js).0 ≢ no_token)
unfolding configure
configure-tokens_of v behind js sized =
    let (equal, ends) =
      value_same v [] behind 0 sized (SameWalk-here [] behind) js start_state
        (record { channel_name = none; input_url = none }) in
    let whole = append-nil (tokens_of v) in
    (
      sym equal
          ∙ ap (λ ts. walk ts 1 js start_state (record { channel_name = none; input_url = none }))
              whole,
      inside-token (configure (tokens_of v) js).0 (
          ap
            (λ ts.
              inside
                (walk ts 1 js start_state (record { channel_name = none; input_url = none })).0)
            (sym whole)
          ∙ ends),
    )
