-- ===== src/Bridge/Pump.antt =====
-- `_pump_output` of nav2_wrapper/atlas_bridge.py, and what a failed run reports of Nav2's log.
mod Tests
use mathlib.Core.List.{append_assoc, append-nil}
use service_navigation_rbnx.Base.{
  String, Bool, true, false, ◌≡◌, refl, sym, ap, ◌∙◌, none, some, List, [], ◌∷◌, ◌++◌, ◌=?◌,
  if◌then◌else◌, eq_refl, arith, Bool-cases, inl, inr,
}
use service_navigation_rbnx.Int.{pos}
use service_navigation_rbnx.Float.{Float}
use service_navigation_rbnx.Text.{is_empty, rstrip}
use service_navigation_rbnx.Bounded.{append_bounded, last_of, append_bounded-last}
use service_navigation_rbnx.Dict.{lookup, insert, erase, lookup-insert}
use service_navigation_rbnx.Diagnostics.{format_result_detail, summarize_blockage}
use service_navigation_rbnx.Diagnostics.Lines.{classify_nav2_line}
use service_navigation_rbnx.Bridge.State.{
  failed, Nav2Status, aborted, goal_status_name, canonical_state, GoalState, Bridge,
}
use service_navigation_rbnx.Bridge.Runs.{
  entry, returned, clear_diagnostics, failure_diagnostics, result,
}

module _ {R H : Type 0} where
  -- `if diagnostic: _nav_diagnostics.append(diagnostic)`
  unfoldable pub note : String → Bridge R H → Bridge R H
  note diagnostic b =
      if is_empty diagnostic
      then b
      else record b { diagnostics = append_bounded 12 b.diagnostics diagnostic }

  -- The body of the loop of `_pump_output` on a decoded line of the process `tag`.
  unfoldable pub pump_line : String × String → Bridge R H → Bridge R H
  unfolding rstrip note
  pump_line (tag, raw) b =
      let line = rstrip raw in
      if is_empty line then b else if tag =? "nav2" then note (classify_nav2_line line) b else b

  abbrev pub pump_lines : List (String × String) → Bridge R H → Bridge R H
  pump_lines [] b = b
  pump_lines (line ∷ lines) b = pump_lines lines (pump_line line b)

-- What a line gives: nothing, or its diagnostic.
abbrev pub unless_empty : String → List String
unless_empty s = if is_empty s then [] else s ∷ []

abbrev pub diagnostic_of : String × String → List String
diagnostic_of (tag, raw) =
    if is_empty (rstrip raw)
    then []
    else if tag =? "nav2"
    then unless_empty (classify_nav2_line (rstrip raw))
    else []

-- The diagnostics of Nav2's lines, in order.
abbrev pub diagnostics_of : List (String × String) → List String
diagnostics_of [] = []
diagnostics_of (line ∷ lines) = diagnostic_of line ++ diagnostics_of lines

module _ {R H : Type 0} where
  note-remembered :
      (seen : List String) (d : String) (b : Bridge R H)
      → b.diagnostics ≡ last_of 12 seen
      → (note d b).diagnostics ≡ last_of 12 (seen ++ unless_empty d)
  unfolding note
  note-remembered seen d b e = elim (Bool-cases (is_empty d)) [
    | inl none_here ↦ rw none_here (e ∙ ap (last_of 12) (sym (append-nil seen)))
    | inr some_text ↦
        rw some_text (ap (λ h. append_bounded 12 h d) e ∙ append_bounded-last 12 seen d)
  ]

  by_tests :
      (seen : List String) (d : String) (b : Bridge R H) (blank of_nav2 : Bool)
      → b.diagnostics ≡ last_of 12 seen
      → (if blank then b else if of_nav2 then note d b else b).diagnostics
        ≡ last_of 12 (seen ++ (if blank then [] else if of_nav2 then unless_empty d else []))
  by_tests seen d b true of_nav2 e = e ∙ ap (last_of 12) (sym (append-nil seen))
  by_tests seen d b false true e = note-remembered seen d b e
  by_tests seen d b false false e = e ∙ ap (last_of 12) (sym (append-nil seen))

  pump_line-remembered :
      (seen : List String) (line : String × String) (b : Bridge R H)
      → b.diagnostics ≡ last_of 12 seen
      → (pump_line line b).diagnostics ≡ last_of 12 (seen ++ diagnostic_of line)
  unfolding pump_line
  pump_line-remembered seen (tag, raw) b e =
      by_tests seen (classify_nav2_line (rstrip raw)) b (is_empty (rstrip raw)) (tag =? "nav2") e

  pump_lines-remembered :
      (lines : List (String × String)) (seen : List String) (b : Bridge R H)
      → b.diagnostics ≡ last_of 12 seen
      → (pump_lines lines b).diagnostics ≡ last_of 12 (seen ++ diagnostics_of lines)
  pump_lines-remembered [] seen b e = e ∙ ap (last_of 12) (sym (append-nil seen))
  pump_lines-remembered (line ∷ lines) seen b e =
      pump_lines-remembered lines (seen ++ diagnostic_of line) (pump_line line b)
        (pump_line-remembered seen line b e)
      ∙ ap (last_of 12) (append_assoc seen (diagnostic_of line) (diagnostics_of lines))

module _ {R H : Type 0} ⦃fl : Float R⦄ where
  -- The blockage report, if there is one.
  abbrev pub blockage_lines : Bridge R H → List String
  blockage_lines b = elim b.costmap [
    | none ↦ []
    | some (cells, width, height, resolution) ↦
        unless_empty (summarize_blockage cells width height resolution (pos 99) (fl.decimal 15 1))
  ]

  failure-lines : (b : Bridge R H) → failure_diagnostics b ≡ b.diagnostics ++ blockage_lines b
  unfolding failure_diagnostics
  failure-lines b = ground (arith, append-nil b.diagnostics)

  pub result_reports :
      (lines : List (String × String)) (gid : String) (b b' : Bridge R H) (s : GoalState R)
      → b'.diagnostics ≡ (pump_lines lines (clear_diagnostics b)).diagnostics
      → lookup gid b'.goal_states ≡ some s
      → lookup gid (result (returned aborted) gid b').goal_states
        ≡ some (
            entry failed (
              format_result_detail "aborted" s.feedback
                (last_of 12 (diagnostics_of lines) ++ blockage_lines b')))
  unfolding result clear_diagnostics canonical_state goal_status_name
  result_reports lines gid b b' s written found =
      let remembered = written ∙ pump_lines-remembered lines [] (clear_diagnostics b) refl in
      let reported = failure-lines b' ∙ ap (λ d. d ++ blockage_lines b') remembered in
      rw (lookup-insert gid gid _ b'.goal_states, eq_refl gid)
        (λ i. some (
          entry failed (
            format_result_detail "aborted" (elim (found i) [ none ↦ none | some t ↦ t.feedback ])
              (reported i))))
