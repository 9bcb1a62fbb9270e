-- ===== src/Depth/Tests.antt =====
-- Runs of the depth cloud node over fixed-point numbers, and instances of its theorems.
use service_navigation_rbnx.Base.{
  ℕ, ◌+◌, ◌*◌, ◌≡◌, refl, Option, none, some, List, [], ◌∷◌, ◌++◌, All, arith,
}
use service_navigation_rbnx.Int.{ℤ, pos, negsuc}
use service_navigation_rbnx.Fixed.{fixed}
use service_navigation_rbnx.Fallible.{ok}
use service_navigation_rbnx.Depth.{
  CameraInfo, Image, DepthCloud, Buffers, every, rows_of, reshape, columns, strided, positions,
  scale, ray, new_grid, rays, is_kept, select_row, select, metres, millimetres, decode, cloud_of,
  on_info, project_depth, convert, on_depth_with, on_depth,
}
use service_navigation_rbnx.Depth.Points.{points_of, sampled}
use service_navigation_rbnx.Depth.Cache.{Message, informs, shows, receive_all}
use service_navigation_rbnx.Depth.Published.{on_depth-points}
use service_navigation_rbnx.Depth.Rate.{outcomes, frames_spaced}
use service_navigation_rbnx.Depth.Start.{at_least_one, new_depth_cloud}

-- 16-bit little-endian numbers, and in place of 32-bit floats the first byte of each four.
abbrev words : List ℕ → Option (List ℤ)
words [] = some []
words (a ∷ []) = none
words (a ∷ b ∷ rest) = elim (words rest) [
  | none ↦ none
  | some xs ↦ some (pos ((a + b * 256) * 1_000_000) ∷ xs)
]

abbrev quads : List ℕ → Option (List ℤ)
quads (a ∷ b ∷ c ∷ d ∷ rest) = elim (quads rest) [
  | none ↦ none
  | some xs ↦ some (pos (a * 1_000_000) ∷ xs)
]
quads [] = some []
quads _ = none

abbrev little_endian : Buffers ℤ
little_endian = record { float32 = quads; uint16 = words }

abbrev camera : ℕ → CameraInfo ℤ
camera centre = record {
  fx = pos 2_000_000;
  fy = pos 2_000_000;
  cx = pos (centre * 1_000_000);
  cy = pos 0;
  width = 3;
  height = 2;
}

-- Two rows of three pixels and one of padding: 1 m, nothing and 2 m; the second row is not sampled.
abbrev image : Image
image = record {
  encoding = "16UC1";
  height = 2;
  width = 3;
  step = 8;
  bytes = (232 ∷ 3 ∷ 0 ∷ 0 ∷ 208 ∷ 7 ∷ 0 ∷ 0 ∷ []) ++ (232 ∷ 3 ∷ 232 ∷ 3 ∷ 232 ∷ 3 ∷ 0 ∷ 0 ∷ []);
}

abbrev depth : List (List ℤ)
depth =
    (pos 1_000_000 ∷ pos 0 ∷ pos 2_000_000 ∷ [])
    ∷ (pos 1_000_000 ∷ pos 1_000_000 ∷ pos 1_000_000 ∷ [])
    ∷ []

-- Every second row and column, from 0.2 m to 4 m, ten times a second.
abbrev node : DepthCloud ℤ
node = new_depth_cloud (pos 2) (pos 200_000) (pos 4_000_000) (pos 10_000_000)

-- The image is shown once under other intrinsics, which are replaced then.
abbrev messages : List (Message ℤ)
messages = informs (camera 0) ∷ shows (pos 1_000_000) image ∷ informs (camera 1) ∷ []

depth_code : Unit {0}
unfolding new_depth_cloud at_least_one every rows_of reshape columns strided positions scale ray
    new_grid rays is_kept select_row select metres millimetres decode cloud_of on_info project_depth
    convert on_depth_with on_depth
depth_code = tt

published :
    (on_depth little_endian (pos 1_100_000) image (receive_all little_endian messages node)).1
    ≡ ok (
        some (
          cloud_of
            ((negsuc 499_999, pos 0, pos 1_000_000) ∷ (pos 1_000_000, pos 0, pos 2_000_000) ∷ [])))
unfolding depth_code
published = refl

on_depth-points_example :
    (on_depth little_endian (pos 1_100_000) image (receive_all little_endian messages node)).1
    ≡ ok
        (some (cloud_of (points_of (camera 1) 2 3 (pos 200_000) (pos 4_000_000) (sampled 2 depth))))
unfolding depth_code
on_depth-points_example =
    on_depth-points little_endian node messages (camera 1) (pos 1_100_000) image depth refl refl
      refl refl (omega arith)

-- A node that has its intrinsics.
abbrev informed : DepthCloud ℤ
informed = record node { info = some (camera 0) }

abbrev soon : List (Message ℤ)
soon = shows (pos 1_050_000) image ∷ informs (camera 1) ∷ shows (pos 1_090_000) image ∷ []

frames_spaced_example :
    let next = (on_depth little_endian (pos 1_000_000) image informed).0 in
    All (λ o. o ≡ ok none) (outcomes little_endian soon next)
    × ((receive_all little_endian soon next).last ≡ pos 1_000_000)
unfolding depth_code
frames_spaced_example =
    frames_spaced little_endian (camera 0) (pos 1_000_000) image informed soon refl refl
      (refl, (tt, (refl, tt)))
