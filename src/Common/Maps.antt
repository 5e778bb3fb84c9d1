-- ===== src/Common/Maps.antt =====
-- `std::map<unsigned, V>` as a partial function.
use Prim.Native.Nat.{ℕ}
use mathlib.Core.Bool.{Bool, true, false}
use mathlib.Core.Option.{Option, none, some}
use mathlib.Core.Path.{◌≡◌, refl, sym, ap, ◌∙◌, fun_ext}
use mcsim.Common.Tests.{◌==◌, if◌then◌else◌, if_rule, ==_iff}

abbrev pub Map {ℓ} : Type ℓ → Type ℓ
Map V = ℕ → Option V

module _ {ℓ} {V : Type ℓ} where
  abbrev pub get_or : Option V → V → V
  get_or none d = d
  get_or (some v) d = v

  abbrev pub is_some : Option V → Bool
  is_some none = false
  is_some (some v) = true

  abbrev pub empty_map : Map V
  empty_map k = none

  -- `m[k] = v`
  abbrev pub insert : Map V → ℕ → V → Map V
  insert m k v = λ j. if j == k then some v else m j

  -- The value that `m[k]` reads, where a missing key yields the default `d`.
  abbrev pub find_or : Map V → ℕ → V → V
  find_or m k d = get_or (m k) d

  abbrev pub is_key : Map V → ℕ → Bool
  is_key m k = is_some (m k)

  abbrev pub map_option : (V → V) → Option V → Option V
  map_option f none = none
  map_option f (some v) = some (f v)

  -- A write to every entry, as a loop over the map's pairs makes it.
  abbrev pub map_values : (V → V) → Map V → Map V
  map_values f m = λ k. map_option f (m k)

module _ {ℓ} {V : Type ℓ} where
  get_or_if :
      (b : Bool) (v : V) (o : Option V) (d : V)
      → get_or (if b then some v else o) d ≡ (if b then v else get_or o d)
  get_or_if true v o d = refl
  get_or_if false v o d = refl

  is_some_if :
      (b : Bool) (v : V) (o : Option V)
      → is_some (if b then some v else o) ≡ (if b then true else is_some o)
  is_some_if true v o = refl
  is_some_if false v o = refl

  pub find_or-insert :
      (m : Map V) (k : ℕ) (v : V) (j : ℕ) (d : V)
      → find_or (insert m k v) j d ≡ (if j == k then v else find_or m j d)
  find_or-insert m k v j d = get_or_if (j == k) v (m j) d

  pub is_key-insert :
      (m : Map V) (k : ℕ) (v : V) (j : ℕ)
      → is_key (insert m k v) j ≡ (if j == k then true else is_key m j)
  is_key-insert m k v j = is_some_if (j == k) v (m j)

module _ {ℓ} {V : Type ℓ} where
  -- `m.erase(k)`
  abbrev pub delete : Map V → ℕ → Map V
  delete m k = λ j. if j == k then none else m j

  insert_self_at : (m : Map V) (k : ℕ) (v : V) (j : ℕ) → m k ≡ some v → insert m k v j ≡ m j
  insert_self_at m k v j e =
      if_rule (λ o. o ≡ m j) (j == k) (λ hit. sym (ap m ((==_iff j k).0 hit) ∙ e)) (λ _. refl)

  pub insert_self : (m : Map V) (k : ℕ) (v : V) → m k ≡ some v → insert m k v ≡ m
  insert_self m k v e = fun_ext (λ j. insert_self_at m k v j e)

  insert-delete_if :
      (b : Bool) (v : V) (o : Option V)
      → (if b then some v else (if b then none else o)) ≡ (if b then some v else o)
  insert-delete_if true v o = refl
  insert-delete_if false v o = refl

  pub insert-delete : (m : Map V) (k : ℕ) (v : V) → insert (delete m k) k v ≡ insert m k v
  insert-delete m k v = fun_ext (λ j. insert-delete_if (j == k) v (m j))
