-- ===== src/Base/Dict.antt =====
-- Python's dict, as the list of its entries in the order of insertion, with the `==` of its keys.
use Prim.Native.Nat.{◌+◌}
use mathlib.Core.Path.{◌≡◌, refl, ap}
use mathlib.Core.Bool.{Bool, true, false, ◌||◌}
use mathlib.Core.Option.{Option, none, some}
use mathlib.Core.List.{List, [], ◌∷◌}
use mathlib.Core.Logic.{inl, inr}
use native.Mathlib.Omega.{arith}
use paper_trading_agent.Base.Tests.{if◌then◌else◌, Bool-cases}
use paper_trading_agent.Base.Lists.{All, count_if}

module _ {Key Value : Type 0} (same : Key → Key → Bool) where
  -- `entries[key] = value`: an entry that is there keeps its place.
  unfoldable pub set_item : Key → Value → List (Key × Value) → List (Key × Value)
  set_item key value [] = (key, value) ∷ []
  set_item key value ((k, old) ∷ rest) =
      let later = set_item key value rest in
      if same key k then (k, value) ∷ rest else (k, old) ∷ later

  -- `entries[key]`, where there is one.
  unfoldable pub get_item : Key → List (Key × Value) → Option Value
  get_item key [] = none
  get_item key ((k, value) ∷ rest) =
      let later = get_item key rest in if same key k then some value else later

  -- `key in entries`
  unfoldable pub holds_key : Key → List (Key × Value) → Bool
  holds_key key [] = false
  holds_key key ((k, value) ∷ rest) = same key k || holds_key key rest

  -- A key that is there has a value.
  pub get_item_total :
      (key : Key) (entries : List (Key × Value))
      → holds_key key entries ≡ true
      → (value : Value) × (get_item key entries ≡ some value)
  unfolding get_item holds_key
  get_item_total key [] h = cc
  get_item_total key ((k, value) ∷ rest) h = elim (Bool-cases (same key k)) [
    | inl e ↦ (value, rw e refl)
    | inr e ↦
        (let (found, there) = get_item_total key rest (ground (arith, e, h)) in (found, rw e there))
  ]

  pub All-set_item :
      (P : Key → Type 0) (key : Key) (value : Value) (entries : List (Key × Value))
      → P key
      → All (λ (e : Key × Value). P e.0) entries
      → All (λ (e : Key × Value). P e.0) (set_item key value entries)
  unfolding set_item
  All-set_item P key value [] h hs = (h, tt)
  All-set_item P key value ((k, old) ∷ rest) h (h', hs) = elim (Bool-cases (same key k)) [
    | inl e ↦ rw e (h', hs)
    | inr e ↦ rw e (h', All-set_item P key value rest h hs)
  ]

  -- Another key changes no count.
  pub count_if-set_item :
      (p : Key → Bool) (key : Key) (value : Value) (entries : List (Key × Value))
      → p key ≡ false
      → count_if (λ (e : Key × Value). p e.0) (set_item key value entries)
        ≡ count_if (λ (e : Key × Value). p e.0) entries
  unfolding set_item
  count_if-set_item p key value [] h = rw h refl
  count_if-set_item p key value ((k, old) ∷ rest) h = elim (Bool-cases (same key k)) [
    | inl e ↦ rw e refl
    | inr e ↦ rw e (ap (λ n. (if p k then 1 else 0) + n) (count_if-set_item p key value rest h))
  ]
