-- ===== src/Diagnostics/Tests.antt =====
-- Lines of Nav2's log.
use service_navigation_rbnx.Base.{◌≡◌, refl, some, [], ◌∷◌, map}
use service_navigation_rbnx.Text.{codes, lower, strip}
use service_navigation_rbnx.Replace.{index, is_prefix}
use service_navigation_rbnx.Params.{occurs}
use service_navigation_rbnx.Diagnostics.Lines.{
  parameters_length, escape_length, without_escapes, signals, any_occurs, drop_text, last_240,
  classify_nav2_line,
}

lines_classified :
    map classify_nav2_line ("[31m Spin failed " ∷ "goal reached" ∷ [])
    ≡ "[31m Spin failed" ∷ "" ∷ []
unfolding codes lower strip index is_prefix occurs parameters_length escape_length without_escapes
    signals any_occurs drop_text last_240 classify_nav2_line
lines_classified = refl

escape_matched : escape_length "[0;31mred" ≡ some 6
unfolding escape_length parameters_length
escape_matched = refl
