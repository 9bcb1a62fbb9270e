-- ===== src/Lifecycle/Held.antt =====
-- The channels that `_resolve_dep` of nav2_wrapper/atlas_bridge.py holds, and those that are open.
use service_navigation_rbnx.Base.{
  ℕ, ◌+◌, ◌≤◌, ◌≡◌, refl, String, Bool, true, false, Option, none, some, List, [], ◌∷◌, ◌=?◌, arith,
  eq_iff, eq_refl, if◌then◌else◌, Option-cases, Bool-cases, inl, inr,
}
use service_navigation_rbnx.Dict.{Dict, lookup, insert}
use service_navigation_rbnx.Lifecycle.Discovery.{
  Channel, Channels, same, close, close_held, use_record, reuse, resolve_dep,
}

abbrev one : Channel → Channel → ℕ
one c d = if same c d then 1 else 0

-- How many of the open channels are to this provider at this endpoint, and how many of those held.
abbrev count_open : Channel → List Channel → ℕ
count_open c [] = 0
count_open c (d ∷ ds) = one c d + count_open c ds

abbrev count_held : Channel → Dict Channel → ℕ
count_held c [] = 0
count_held c ((k, d) ∷ ds) = one c d + count_held c ds

abbrev count_one : Channel → Option Channel → ℕ
count_one c none = 0
count_one c (some d) = one c d

-- Exactly the channels that are held are open, each as often as it is held.
abbrev pub IsHeld : Channels → Type 0
IsHeld c = (x : Channel) → count_open x c.opened ≡ count_held x c.held

same_trans : (c d x : Channel) → same c d ≡ true → one x c ≡ one x d
same_trans c d x h = ground (
  arith,
  eq_iff c.provider_id d.provider_id,
  eq_iff c.endpoint d.endpoint,
  eq_iff x.provider_id c.provider_id,
  eq_iff x.endpoint c.endpoint,
  eq_iff x.provider_id d.provider_id,
  eq_iff x.endpoint d.endpoint,
)

same_refl : (c : Channel) → same c c ≡ true
same_refl c = rw (eq_refl c.provider_id, eq_refl c.endpoint) refl

-- Closing a channel that is open takes one such channel away.
count-close :
    (c x : Channel) (ds : List Channel)
    → 1 ≤ count_open c ds
    → count_open x (close c ds) + one x c ≡ count_open x ds
unfolding close
count-close c x [] h = omega arith
count-close c x (d ∷ ds) h = elim (Bool-cases (same c d)) [
  | inl e ↦ rw (e, same_trans c d x e) (omega arith)
  | inr e ↦
      let rest = count-close c x ds (later c ds (same c d) e h) in
      rw e (shifted (one x d) (count_open x (close c ds)) (one x c) (count_open x ds) rest)
]
  where
    later :
        (c : Channel) (ds : List Channel) (b : Bool)
        → b ≡ false
        → 1 ≤ (if b then 1 else 0) + count_open c ds
        → 1 ≤ count_open c ds
    later c ds true e h = cc
    later c ds false e h = omega arith

    shifted : (a m n k : ℕ) → m + n ≡ k → (a + m) + n ≡ a + k
    shifted a m n k e = omega arith

held_one : (k : String) (c : Channel) (d : Dict Channel) → lookup k d ≡ some c → 1 ≤ count_held c d
unfolding lookup
held_one k c [] h = cc
held_one k c ((j, v) ∷ d) h = ground (arith, held_one k c d, same_refl c)

count-insert :
    (k : String) (c x : Channel) (d : Dict Channel)
    → count_held x (insert k c d) + count_one x (lookup k d) ≡ one x c + count_held x d
unfolding insert lookup
count-insert k c x [] = omega arith
count-insert k c x ((j, v) ∷ d) = ground (arith, count-insert k c x d)

count-close_held :
    (k : String) (x : Channel) (c : Channels)
    → IsHeld c
    → count_open x (close_held (lookup k c.held) c.opened) + count_one x (lookup k c.held)
      ≡ count_open x c.opened
count-close_held k x c h = elim (Option-cases (lookup k c.held)) [
  | inl e ↦ rw e (omega arith)
  | inr (old, e) ↦
      let open_one : 1 ≤ count_open old c.opened = rw (h old) (held_one k old c.held e) in
      rw e (count-close old x c.opened open_one)
]

use_record-IsHeld :
    (k provider : String) (connect : Option Channel) (c : Channels)
    → IsHeld c
    → IsHeld (use_record k provider connect c).0
unfolding use_record
use_record-IsHeld k provider none c h = h
use_record-IsHeld k provider (some new) c h = λ x.
    balanced (one x new) _ (count_one x (lookup k c.held)) _ (count_open x c.opened)
      (count_held x c.held) (count-close_held k x c h) (count-insert k new x c.held) (h x)
  where
    balanced :
        (a closed old inserted opened held : ℕ)
        → closed + old ≡ opened
        → inserted + old ≡ a + held
        → opened ≡ held
        → a + closed ≡ inserted
    balanced a closed old inserted opened held e f g = omega arith

reused :
    (o : Option Channel) (provider : String) (c : Channels) (r : Channels × Option String)
    → IsHeld c
    → IsHeld r.0
    → IsHeld (reuse o provider c r).0
unfolding reuse
reused none provider c r h f = f
reused (some ch) provider c r h f = elim (Bool-cases (ch.provider_id =? provider)) [
  | inl e ↦ rw e h
  | inr e ↦ rw e f
]

pub resolve_dep-IsHeld :
    (contract : String) (found : Option String) (connect : Option Channel) (c : Channels)
    → IsHeld c
    → IsHeld (resolve_dep contract found connect c).0
unfolding resolve_dep
resolve_dep-IsHeld contract none connect c h = h
resolve_dep-IsHeld contract (some provider) connect c h =
    reused (lookup contract c.held) provider c (use_record contract provider connect c) h
      (use_record-IsHeld contract provider connect c h)
