-- ===== src/Keys/Found.antt =====
-- The keys that `extract_top_level_keys` finds, crates/tfls-diag/src/map_duplicate_keys.rs
use terraform_ls_rs.Base.{
  ℕ, zero, suc, ◌+◌, ◌-◌, ◌≤◌, ◌<◌, Bool, false, Option, none, some, List, [], ◌∷◌, ◌≡◌, refl, sym,
  ap, ◌∙◌, subst, Bytes, length, drop, arith, Bool-cases, inl, inr, starts_with,
}
use terraform_ls_rs.Base.Int.{ℤ, pos}
use terraform_ls_rs.Keys.Extract.{Turn, step, key, stop, turn}
use terraform_ls_rs.Keys.Ends.{length-drop}
use terraform_ls_rs.Keys.Spans.{Spelled, Goes, Goes-turn}
use terraform_ls_rs.Keys.Extract.{Key, push_key, take_turn, keys_from, extract_top_level_keys}

no_distance : (i : ℕ) → 0 ≡ i - i
no_distance i = omega arith

distance : (i len : ℕ) → len ≡ i + len - i
distance i len = omega arith

suc_add : (n m : ℕ) → suc (n + m) ≡ suc n + m
suc_add n m = omega arith

drop-nil : (n : ℕ) → drop {A = ℕ} n [] ≡ []
drop-nil zero = refl
drop-nil (suc n) = refl

drop-drop : (n m : ℕ) (s : Bytes) → drop m (drop n s) ≡ drop (n + m) s
drop-drop zero m s = ap (λ (k : ℕ). drop k s) (omega arith)
drop-drop (suc n) m [] = drop-nil m ∙ sym (drop-nil (suc n + m))
drop-drop (suc n) m (b ∷ s) = drop-drop n m s ∙ ap (λ (k : ℕ). drop k (b ∷ s)) (suc_add n m)

-- The keys lie in the text `s`, which begins at `i`, one behind the other from `low` on; each is not
-- empty, and it stands there as it is spelled.
abbrev pub Found : Bytes → ℕ → ℕ → List Key → Type 0
Found s i low [] = Unit
Found s i low (k ∷ keys) =
    (low ≤ k.start)
    × (k.start < k.end)
    × (k.end ≤ i + length s)
    × Spelled (drop (k.start - i) s) k.name (k.end - k.start)
    × Found s i k.end keys

Found-drop :
    (s : Bytes) (i n low low' : ℕ) (keys : List Key)
    → n ≤ length s
    → i + n ≤ low
    → low' ≤ low
    → Found (drop n s) (i + n) low keys
    → Found s i low' keys
Found-drop s i n low low' [] a b c h = tt
Found-drop s i n low low' (k ∷ keys) a b c h = (
  omega arith,
  h.1,
  omega (arith, length-drop n s),
  subst (λ (t : Bytes). Spelled t k.name (k.end - k.start))
      (drop-drop n (k.start - (i + n)) s ∙ ap (λ (j : ℕ). drop j s) (omega arith)) h.3,
  Found-drop s i n k.end k.end keys a (omega arith) (omega arith) h.4,
)

-- The loop ends, with keys in the text that is left.
abbrev Returns : Bytes → ℕ → Option (List Key) → Type 0
Returns s i none = ⊥
Returns s i (some keys) = Found s i i keys

Returns-drop :
    (s : Bytes) (i n : ℕ) (o : Option (List Key))
    → n ≤ length s
    → Returns (drop n s) (i + n) o
    → Returns s i o
Returns-drop s i n none h r = r
Returns-drop s i n (some keys) h r = Found-drop s i n (i + n) i keys h (omega arith) (omega arith) r

Returns-push_key :
    (s : Bytes) (i n len : ℕ) (name : Bytes) (o : Option (List Key))
    → 1 ≤ len
    → len ≤ n
    → n ≤ length s
    → Spelled s name len
    → Returns (drop n s) (i + n) o
    → Returns s i (push_key (record { name = name; start = i; end = i + len }) o)
Returns-push_key s i n len name none a b c spelled r = r
Returns-push_key s i n len name (some keys) a b c spelled r = (
  omega arith,
  omega arith,
  omega arith,
  subst (λ (j : ℕ). Spelled (drop j s) name (i + len - i)) (no_distance i)
      (subst (λ (j : ℕ). Spelled s name j) (distance i len) spelled),
  Found-drop s i n (i + n) (i + len) keys c (omega arith) (omega arith) r,
)

Returns-take_turn :
    (t : Turn) (i : ℕ) (s : Bytes) (loop : ℕ → ℤ → Bool → Bytes → Option (List Key))
    → Goes s t
    → ((n : ℕ) (d : ℤ) (k : Bool)
        → 1 ≤ n
        → Returns (drop n s) (i + n) (loop (i + n) d k (drop n s)))
    → Returns s i (take_turn t i s loop)
Returns-take_turn (step n depth at_key) i s loop goes h =
    Returns-drop s i n (loop (i + n) depth at_key (drop n s)) goes.1 (h n depth at_key goes.0)
Returns-take_turn (key n depth name len) i s loop goes h =
    Returns-push_key s i n len name (loop (i + n) depth false (drop n s)) goes.0 goes.1 goes.2
      goes.3 (h n depth false (omega arith))
Returns-take_turn stop i s loop goes h = tt

keys_from-Returns :
    (fuel i : ℕ) (depth : ℤ) (at_key : Bool) (s : Bytes)
    → length s + 1 ≤ fuel
    → Returns s i (keys_from fuel i depth at_key s)
unfolding keys_from
keys_from-Returns zero i depth at_key s h = absurd (omega arith)
keys_from-Returns (suc fuel) i depth at_key [] h = tt
keys_from-Returns (suc fuel) i depth at_key (b ∷ s) h =
    Returns-take_turn (turn depth at_key b s) i (b ∷ s) (keys_from fuel)
      (Goes-turn depth at_key b s)
      (λ n d k m.
        keys_from-Returns fuel (i + n) d k (drop n (b ∷ s)) (omega (arith, length-drop n (b ∷ s))))

Returns-cases :
    (s : Bytes) (i : ℕ) (o : Option (List Key))
    → Returns s i o
    → (keys : List Key) × (o ≡ some keys) × Found s i i keys
Returns-cases s i none r = absurd r
Returns-cases s i (some keys) r = (keys, refl, r)

-- The scan of an object literal that begins at `slice_base` ends, and returns keys whose ranges are
-- not empty, lie in the literal and follow one another. A key that is not quoted is the text of its
-- range.
pub extract_top_level_keys-Found :
    (slice : Bytes) (slice_base : ℕ)
    → (keys : List Key) × (extract_top_level_keys slice slice_base ≡ some keys)
      × Found slice slice_base slice_base keys
unfolding extract_top_level_keys
extract_top_level_keys-Found slice slice_base = elim (Bool-cases (starts_with slice (b'{' ∷ []))) [
  | inl object ↦ rw object (
      Returns-cases slice slice_base (keys_from (length slice + 1) slice_base (pos 0) false slice)
        (keys_from-Returns (length slice + 1) slice_base (pos 0) false slice (omega arith)))
  | inr other ↦ rw other ([], refl, tt)
]
