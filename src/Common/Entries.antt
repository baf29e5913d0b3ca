-- ===== src/Common/Entries.antt =====
-- Maps as lists of entries, in the order of their keys where they are made by the functions below.
use mathlib.Core.Path.{◌≡◌, refl, sym, ap, subst}
use mathlib.Core.Bool.{Bool, true, false}
use mathlib.Core.List.{List, [], ◌∷◌}
use mathlib.Core.Logic.{inl, inr}
use mathlib.Core.Option.{Option, none, some}
use native.Mathlib.Omega.{arith}
use market_aggregator.Common.Tests.{if◌then◌else◌, Bool-cases, Option-cases}

abbrev pub entry_or : {V : Type 0} → V → Option V → V
entry_or d none = d
entry_or d (some v) = v

module _ {K V : Type 0} where
  abbrev pub lookup_by : (K → K → Bool) → K → List (K × V) → Option V
  lookup_by eqb k [] = none
  lookup_by eqb k ((j, v) ∷ rest) =
      let later = lookup_by eqb k rest in if eqb j k then some v else later

  -- A new key goes before the first that it precedes.
  unfoldable pub insert_by : (K → K → Bool) → K → V → List (K × V) → List (K × V)
  insert_by before k v [] = (k, v) ∷ []
  insert_by before k v ((j, u) ∷ rest) =
      let later = insert_by before k v rest in
      if before k j then (k, v) ∷ (j, u) ∷ rest else (j, u) ∷ later

  unfoldable pub modify_by : (K → K → Bool) → K → (V → V) → List (K × V) → List (K × V)
  modify_by eqb k f [] = []
  modify_by eqb k f ((j, u) ∷ rest) =
      let later = modify_by eqb k f rest in if eqb j k then (j, f u) ∷ rest else (j, u) ∷ later

  abbrev pub update_found :
      (K → K → Bool) → (K → K → Bool) → K → V → (V → V) → List (K × V) → Option V → List (K × V)
  update_found before eqb k d f m none = insert_by before k (f d) m
  update_found before eqb k d f m (some v) = modify_by eqb k f m

  -- `map.entry(k).or_default()`, and what is done to the value there.
  unfoldable pub update_by :
      (K → K → Bool) → (K → K → Bool) → K → V → (V → V) → List (K × V) → List (K × V)
  unfolding insert_by modify_by
  update_by before eqb k d f m = update_found before eqb k d f m (lookup_by eqb k m)

-- A test that decides equality.
pub record IsEqb {K : Type 0} (eqb : K → K → Bool) : Type 0 where
  pub eqb_sound : (j k : K) → eqb j k ≡ true → j ≡ k
  pub eqb_refl : (k : K) → eqb k k ≡ true

hit-some :
    {V : Type 0} (b : Bool) (u : V) (o : Option V) → b ≡ true → (if b then some u else o) ≡ some u
hit-some b u o e = rw e

hit-none :
    {V : Type 0} (b : Bool) (u : V) (o : Option V)
    → (if b then some u else o) ≡ none
    → (b ≡ false) × (o ≡ none)
hit-none b u o e = ground arith

module _ {K V : Type 0} (before eqb : K → K → Bool) (is_eqb : IsEqb eqb) where
  lookup_by-insert_by :
      (k : K) (v : V) (m : List (K × V))
      → lookup_by eqb k m ≡ none
      → lookup_by eqb k (insert_by before k v m) ≡ some v
  unfolding insert_by
  lookup_by-insert_by k v [] h = rw (is_eqb.eqb_refl k) refl
  lookup_by-insert_by k v ((j, u) ∷ rest) h = elim (Bool-cases (before k j)) [
    | inl first ↦ rw (first, is_eqb.eqb_refl k) refl
    | inr later ↦
        let (other, on) = hit-none (eqb j k) u (lookup_by eqb k rest) h in
        rw (later, other) (lookup_by-insert_by k v rest on)
  ]

  lookup_by-insert_by_ne :
      (i k : K) (v : V) (m : List (K × V))
      → eqb k i ≡ false
      → lookup_by eqb i (insert_by before k v m) ≡ lookup_by eqb i m
  unfolding insert_by
  lookup_by-insert_by_ne i k v [] h = rw h refl
  lookup_by-insert_by_ne i k v ((j, u) ∷ rest) h = elim (Bool-cases (before k j)) [
    | inl first ↦ rw (first, h) refl
    | inr later ↦
        rw later (ap (λ o. if eqb j i then some u else o) (lookup_by-insert_by_ne i k v rest h))
  ]

  lookup_by-modify_by :
      (k : K) (f : V → V) (v : V) (m : List (K × V))
      → lookup_by eqb k m ≡ some v
      → lookup_by eqb k (modify_by eqb k f m) ≡ some (f v)
  unfolding modify_by
  lookup_by-modify_by k f v [] h = cc
  lookup_by-modify_by k f v ((j, u) ∷ rest) h = elim (Bool-cases (eqb j k)) [
    | inl here ↦ rw (here, here) (ap (λ w. some (f w)) (found (rw here at h)))
    | inr on ↦ rw (on, on) (lookup_by-modify_by k f v rest (rw on at h))
  ]
    where
      found : some u ≡ some v → u ≡ v
      found e = cc

  lookup_by-modify_by_ne :
      (i k : K) (f : V → V) (m : List (K × V))
      → eqb k i ≡ false
      → lookup_by eqb i (modify_by eqb k f m) ≡ lookup_by eqb i m
  unfolding modify_by
  lookup_by-modify_by_ne i k f [] h = refl
  lookup_by-modify_by_ne i k f ((j, u) ∷ rest) h = elim (Bool-cases (eqb j k)) [
    | inl here ↦ rw here (rw (is_eqb.eqb_sound j k here, h) refl)
    | inr on ↦ rw on (ap (λ o. if eqb j i then some u else o) (lookup_by-modify_by_ne i k f rest h))
  ]

  -- An update changes the entry of its key, or makes it, and no other.
  pub lookup_by-update_by :
      (k : K) (d : V) (f : V → V) (m : List (K × V))
      → lookup_by eqb k (update_by before eqb k d f m) ≡ some (f (entry_or d (lookup_by eqb k m)))
  unfolding update_by
  lookup_by-update_by k d f m = elim (Option-cases (lookup_by eqb k m)) [
    | inl e ↦ rw e (lookup_by-insert_by k (f d) m e)
    | inr (v, e) ↦ rw e (lookup_by-modify_by k f v m e)
  ]

  pub lookup_by-update_by_ne :
      (i k : K) (d : V) (f : V → V) (m : List (K × V))
      → eqb k i ≡ false
      → lookup_by eqb i (update_by before eqb k d f m) ≡ lookup_by eqb i m
  unfolding update_by
  lookup_by-update_by_ne i k d f m h = elim (Option-cases (lookup_by eqb k m)) [
    | inl e ↦ rw e (lookup_by-insert_by_ne i k (f d) m h)
    | inr (v, e) ↦ rw e (lookup_by-modify_by_ne i k f m h)
  ]

-- What holds of every entry, key and value.
abbrev pub AllEntries : {K V : Type 0} → (K → V → Type 0) → List (K × V) → Type 0
AllEntries P [] = Unit
AllEntries P ((k, v) ∷ rest) = P k v × AllEntries P rest

module _ {K V : Type 0} (before eqb : K → K → Bool) (is_eqb : IsEqb eqb) (P : K → V → Type 0) where
  insert_by-AllEntries :
      (k : K) (v : V) (m : List (K × V))
      → P k v
      → AllEntries P m
      → AllEntries P (insert_by before k v m)
  unfolding insert_by
  insert_by-AllEntries k v [] p a = (p, tt)
  insert_by-AllEntries k v ((j, u) ∷ rest) p a = elim (Bool-cases (before k j)) [
    | inl first ↦ rw first (p, a)
    | inr later ↦ rw later (a.0, insert_by-AllEntries k v rest p a.1)
  ]

  modify_by-AllEntries :
      (k : K) (f : V → V) (m : List (K × V))
      → ((v : V) → P k v → P k (f v))
      → AllEntries P m
      → AllEntries P (modify_by eqb k f m)
  unfolding modify_by
  modify_by-AllEntries k f [] h a = tt
  modify_by-AllEntries k f ((j, u) ∷ rest) h a = elim (Bool-cases (eqb j k)) [
    | inl here ↦ rw here (
      subst (λ i. P i (f u)) (sym (is_eqb.eqb_sound j k here))
          (h u (subst (λ i. P i u) (is_eqb.eqb_sound j k here) a.0)),
      a.1,
    )
    | inr on ↦ rw on (a.0, modify_by-AllEntries k f rest h a.1)
  ]

  pub update_by-AllEntries :
      (k : K) (d : V) (f : V → V) (m : List (K × V))
      → P k d
      → ((v : V) → P k v → P k (f v))
      → AllEntries P m
      → AllEntries P (update_by before eqb k d f m)
  unfolding update_by
  update_by-AllEntries k d f m p h a = by_found (lookup_by eqb k m)
    where
      by_found : (o : Option V) → AllEntries P (update_found before eqb k d f m o)
      by_found none = insert_by-AllEntries k (f d) m (h d p) a
      by_found (some v) = modify_by-AllEntries k f m h a
