-- ===== src/Launch/Guarded.antt =====
-- What the changed launch file is.
use service_navigation_rbnx.Base.{
  ℕ, ◌≡◌, refl, sym, subst, ap, zero, suc, ◌+◌, ◌==◌, String, Bool, true, Option, none, some, [],
  ◌∷◌, ◌++◌, arith, take, drop,
}
use service_navigation_rbnx.Text.{codes}
use service_navigation_rbnx.Replace.{Code, count, replace, index, is_prefix}
use service_navigation_rbnx.Replace.Pieces.{Patched, replace-Patched}
use service_navigation_rbnx.Fallible.{ok, bind-ok, or_raise, or_raise-ok}
use service_navigation_rbnx.Launch.{
  LaunchError, behavior_marker, navigator_marker, old_controller, old_behavior, old_smoother,
  remap_to, smoothed_to, replace_all, patch_controller, behavior_topic, patch_section,
  patch_behaviors, smoother_topic, guarded_launch,
}

nat_eq : (m n : ℕ) → (m == n) ≡ true → m ≡ n
nat_eq m n h = ground arith

replace_all-Patched :
    (x : ℕ) (xs new : Code) (n : ℕ) (error : LaunchError) (text out : Code)
    → replace_all (x ∷ xs) new n error text ≡ ok out
    → Patched (x ∷ xs) new n text out
unfolding replace_all
replace_all-Patched x xs new n error text out h =
    let counted : count (x ∷ xs) text ≡ n = ground arith in
    let written : replace (x ∷ xs) new text ≡ out = ground arith in
    subst (λ o. Patched (x ∷ xs) new n text o) written
      (subst (λ m. Patched (x ∷ xs) new m text (replace (x ∷ xs) new text)) counted
        (replace-Patched x xs new text))

take-drop : (n : ℕ) (s : Code) → take n s ++ drop n s ≡ s
take-drop zero s = refl
take-drop (suc n) [] = refl
take-drop (suc n) (c ∷ s) = ap (λ r. c ∷ r) (take-drop n s)

drop_nil : (n : ℕ) → drop {A = ℕ} n [] ≡ []
drop_nil zero = refl
drop_nil (suc n) = refl

drop-add : (m n : ℕ) (s : Code) → drop (m + n) s ≡ drop n (drop m s)
drop-add zero n s = ap (λ k. drop k s) (omega arith)
drop-add (suc m) n [] = rw (drop_nil (suc m + n), drop_nil n) refl
drop-add (suc m) n (c ∷ s) = let e : suc m + n ≡ suc (m + n) = omega arith in rw e (drop-add m n s)

index_starts : (old s : Code) (i : ℕ) → index old s ≡ some i → is_prefix old (drop i s) ≡ true
unfolding index
index_starts old [] i h = cc
index_starts old (c ∷ s) zero h = ground arith
index_starts old (c ∷ s) (suc i) h = ground (arith, index_starts old s i)

-- One behavior server's section, which starts at Nav2's marker and ends before the next package's, has one
-- remapping changed, and nothing else is.
pub record SectionPatched (remap : Code) (before after : Code) : Type 0 where
  pub head : Code
  pub section : Code
  pub changed : Code
  pub tail : Code
  pub was : before ≡ head ++ (section ++ tail)
  pub is : after ≡ head ++ (changed ++ tail)
  pub starts : is_prefix behavior_marker (section ++ tail) ≡ true
  pub ends : is_prefix navigator_marker tail ≡ true
  pub remapped : Patched old_behavior remap 1 section changed

patch_section-SectionPatched :
    (remap : Code) (from : ℕ) (text out : Code) (next : ℕ)
    → patch_section remap from text ≡ ok (out, next)
    → SectionPatched remap text out
unfolding patch_section old_behavior codes
patch_section-SectionPatched remap from text out next h =
    let (offset, found, h₁) = bind-ok (or_raise (index behavior_marker (drop from text)) _) _ h in
    let start = from + offset in
    let (size, ended, h₂) = bind-ok (or_raise (index navigator_marker (drop start text)) _) _ h₁ in
    let (changed, patched, h₃) =
      bind-ok (replace_all old_behavior remap 1 _ (take size (drop start text))) _ h₂ in
    let here : take start text ++ (changed ++ drop size (drop start text)) ≡ out = ground arith in
    let rest : take size (drop start text) ++ drop size (drop start text) ≡ drop start text =
      take-drop size (drop start text) in
    record {
      head = take start text;
      section = take size (drop start text);
      changed = changed;
      tail = drop size (drop start text);
      was = rw rest (sym (take-drop start text));
      is = sym here;
      starts =
          rw (rest, drop-add from offset text)
            (index_starts behavior_marker (drop from text) offset (or_raise-ok _ _ found));
      ends = index_starts navigator_marker (drop start text) size (or_raise-ok _ _ ended);
      remapped = replace_all-Patched _ _ remap 1 _ (take size (drop start text)) changed patched;
    }

-- Without a topic of its own the controllers' text stays; with one, both controllers send to it.
abbrev pub ControllerPatched : Option String → Code → Code → Type 0
ControllerPatched none before after = after ≡ before
ControllerPatched (some topic) before after = Patched old_controller (remap_to topic) 2 before after

-- Every velocity of the launch file goes where it should: the controllers', each of the two behavior
-- servers' and the smoothers'.
pub record IsGuarded (controller : Option String) (monitor : Bool) (text out : Code) : Type 0 where
  pub controlled : Code
  pub once : Code
  pub behaved : Code
  pub controllers : ControllerPatched controller text controlled
  pub first_behavior : SectionPatched (remap_to (behavior_topic controller)) controlled once
  pub second_behavior : SectionPatched (remap_to (behavior_topic controller)) once behaved
  pub smoothers : Patched old_smoother (smoothed_to (smoother_topic monitor)) 2 behaved out

patch_controller-Patched :
    (controller : Option String) (text out : Code)
    → patch_controller controller text ≡ ok out
    → ControllerPatched controller text out
unfolding patch_controller old_controller codes
patch_controller-Patched none text out h = ground arith
patch_controller-Patched (some topic) text out h =
    replace_all-Patched _ _ (remap_to topic) 2 _ text out h

pub guarded_launch-IsGuarded :
    (controller : Option String) (monitor : Bool) (text out : Code)
    → guarded_launch controller monitor text ≡ ok out
    → IsGuarded controller monitor text out
unfolding guarded_launch patch_behaviors old_smoother codes
guarded_launch-IsGuarded controller monitor text out h =
    let (controlled, by_controller, h₁) = bind-ok (patch_controller controller text) _ h in
    let remap = remap_to (behavior_topic controller) in
    let (behaved, by_behaviors, h₂) = bind-ok (patch_behaviors remap controlled) _ h₁ in
    let ((once, from), by_first, h₃) = bind-ok (patch_section remap 0 controlled) _ by_behaviors in
    let ((twice, from'), by_second, h₄) = bind-ok (patch_section remap from once) _ h₃ in
    let same : twice ≡ behaved = ground arith in
    record {
      controlled = controlled;
      once = once;
      behaved = behaved;
      controllers = patch_controller-Patched controller text controlled by_controller;
      first_behavior = patch_section-SectionPatched remap 0 controlled once from by_first;
      second_behavior =
          subst (λ b. SectionPatched remap once b) same
            (patch_section-SectionPatched remap from once twice from' by_second);
      smoothers = replace_all-Patched _ _ _ 2 _ behaved out h₂;
    }
