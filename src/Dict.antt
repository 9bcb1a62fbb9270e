-- ===== src/Dict.antt =====
-- Python's dicts with text keys, in insertion order.
use service_navigation_rbnx.Base.{
  String, ◌≡◌, refl, ◌≢◌, Option, none, some, List, [], ◌∷◌, ◌=?◌, if◌then◌else◌, arith, eq_iff,
}

abbrev pub Dict {ℓ} : Type ℓ → Type ℓ
Dict V = List (String × V)

module _ {ℓ} {V : Type ℓ} where
  -- `d.get(k)`
  unfoldable pub lookup : String → Dict V → Option V
  lookup k [] = none
  lookup k ((j, v) ∷ d) = if j =? k then some v else lookup k d

  -- `d[k] = v`
  unfoldable pub insert : String → V → Dict V → Dict V
  insert k v [] = (k, v) ∷ []
  insert k v ((j, w) ∷ d) = if j =? k then (k, v) ∷ d else (j, w) ∷ insert k v d

  -- `d.pop(k, None)`
  unfoldable pub erase : String → Dict V → Dict V
  erase k [] = []
  erase k ((j, v) ∷ d) = if j =? k then d else (j, v) ∷ erase k d

  pub lookup-insert :
      (k j : String) (v : V) (d : Dict V)
      → lookup j (insert k v d) ≡ (if k =? j then some v else lookup j d)
  unfolding lookup insert
  lookup-insert k j v [] = refl
  lookup-insert k j v ((i, w) ∷ d) =
      ground (arith, eq_iff k j, eq_iff i k, eq_iff i j, lookup-insert k j v d)

  pub lookup-erase_ne : (k j : String) (d : Dict V) → k ≢ j → lookup j (erase k d) ≡ lookup j d
  unfolding lookup erase
  lookup-erase_ne k j [] h = refl
  lookup-erase_ne k j ((i, w) ∷ d) h =
      ground (arith, eq_iff i k, eq_iff i j, eq_iff k j, lookup-erase_ne k j d h)
