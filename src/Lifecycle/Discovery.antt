-- ===== src/Lifecycle/Discovery.antt =====
-- `_resolve_dep` and `_build_remap_args` of nav2_wrapper/atlas_bridge.py: the topics that back the contracts
-- that navigation consumes, and the channels that it holds open to their providers.
use service_navigation_rbnx.Base.{
  String, Bool, ◌&&◌, Option, none, some, List, [], ◌∷◌, ◌++◌, ◌=?◌, if◌then◌else◌,
}
use service_navigation_rbnx.Text.{codes, strip, is_empty}
use service_navigation_rbnx.Dict.{Dict, lookup, insert}
use service_navigation_rbnx.Replace.{Code}
use service_navigation_rbnx.Value.{Value, Fields, end, get, truth, text_of}
use service_navigation_rbnx.Float.{Float}
use service_navigation_rbnx.Bridge.Runs.{Outcome, raised, returned}

infixl 5 ◌>>=◌
abbrev pub ◌>>=◌ : {A B : Type 0} → Outcome A → (A → Outcome B) → Outcome B
raised e >>= f = raised e
returned a >>= f = f a

-- An open channel to a provider; the endpoint may be empty.
pub record Channel : Type 0 where
  pub provider_id : String
  pub endpoint : String

-- The channels held in `_dep_channels`, and all the channels that are open.
pub record Channels : Type 0 where
  pub held : Dict Channel
  pub opened : List Channel

-- `(endpoint or "").strip() or None`
abbrev pub endpoint_of : Channel → Option String
endpoint_of c = if is_empty (strip c.endpoint) then none else some (strip c.endpoint)

abbrev pub same : Channel → Channel → Bool
same c d = (c.provider_id =? d.provider_id) && (c.endpoint =? d.endpoint)

-- `held.close()`: one such channel fewer.
unfoldable pub close : Channel → List Channel → List Channel
close c [] = []
close c (d ∷ ds) = if same c d then ds else d ∷ close c ds

abbrev pub close_held : Option Channel → List Channel → List Channel
close_held none cs = cs
close_held (some c) cs = close c cs

-- What is done with the record of a provider; `connect` opens a channel or fails.
unfoldable pub use_record : String → String → Option Channel → Channels → Channels × Option String
use_record contract provider none c = (c, none)
use_record contract provider (some ch) c = (
  record {
    held = insert contract ch c.held;
    opened = ch ∷ close_held (lookup contract c.held) c.opened;
  },
  endpoint_of ch,
)

-- The channel that is held is used again where it is to the same provider, and `fresh` otherwise.
unfoldable pub reuse :
    Option Channel → String → Channels → Channels × Option String → Channels × Option String
reuse none provider c fresh = fresh
reuse (some ch) provider c fresh = if ch.provider_id =? provider then (c, endpoint_of ch) else fresh

-- `_resolve_dep`: `found` is the provider of the first record, and `connect` what connecting to it gives.
unfoldable pub resolve_dep :
    String → Option String → Option Channel → Channels → Channels × Option String
unfolding use_record reuse
resolve_dep contract none connect c = (c, none)
resolve_dep contract (some provider) connect c =
    reuse (lookup contract c.held) provider c (use_record contract provider connect c)

-- `_REQUIRED_DEPS` and `_OPTIONAL_DEPS`: the key and the contract.
abbrev pub required_deps : List (String × String)
required_deps =
    ("map", "robonix/service/map/occupancy_grid") ∷ ("odom", "robonix/primitive/chassis/odom") ∷ []

abbrev pub optional_deps : List (String × String)
optional_deps =
    ("scan", "robonix/primitive/lidar/lidar")
    ∷ ("scan_cloud", "robonix/primitive/lidar/lidar3d")
    ∷ []

-- `f"{key}:={ep}"`
unfoldable pub binding : String → String → Code
unfolding codes
binding key ep = codes key ++ (codes ":=" ++ codes ep)

-- The bindings with one more where its endpoint is not empty, and else the missing contracts with it.
abbrev pub bind_one : String → String → List Code → List Code
bind_one key ep bs = if is_empty ep then bs else binding key ep ∷ bs

abbrev pub lack_one : String → String → List String → List String
lack_one contract ep cs = if is_empty ep then contract ∷ cs else cs

module _ {R : Type 0} ⦃fl : Float R⦄ where
  -- `cfg.get(key, {}) or {}` where a mapping is wanted. A list of pairs, which `dict` would read as a
  -- mapping, is taken to raise as well.
  unfoldable pub section : Option (Value R) → Outcome (Fields R)
  section none = returned end
  section (some (Value.mapping d)) = returned d
  section (some v) = if truth v then raised "not a mapping" else returned end

module _ {R : Type 0} ⦃fl : Float R⦄ (str : Value R → String) where
  -- `str(providers.get(key) or "")`
  unfoldable pub provider_of : Option (Value R) → String
  unfolding text_of
  provider_of none = ""
  provider_of (some v) = if truth v then text_of str v else ""

module _ {R : Type 0} ⦃fl : Float R⦄ (str : Value R → String)
    (resolve : String → String → Option String) where
  -- The endpoint of a dependency, empty where there is none; `resolve` is what `_resolve_dep` returns.
  unfoldable pub endpoint : Fields R → Fields R → String × String → String
  unfolding text_of provider_of
  endpoint overrides providers (key, contract) = elim (get overrides key) [
    | some v ↦ text_of str v
    | none ↦ elim (resolve contract (provider_of str (get providers key))) [
      | none ↦ ""
      | some ep ↦ ep
    ]
  ]

  -- The bindings of the dependencies that have an endpoint, and the contracts of those that have none.
  unfoldable pub bind_all : Fields R → Fields R → List (String × String) → List Code × List String
  unfolding endpoint binding
  bind_all overrides providers [] = ([], [])
  bind_all overrides providers ((key, contract) ∷ deps) =
      let (bound, missing) = bind_all overrides providers deps in
      let ep = endpoint overrides providers (key, contract) in
      (bind_one key ep bound, lack_one contract ep missing)

  -- `_build_remap_args`
  unfoldable pub build_remap_args : Fields R → Outcome (List Code × List String)
  unfolding section
  build_remap_args cfg = do
    overrides ← section (get cfg "topic_remap")
    providers ← section (get cfg "provider_ids")
    let (required, missing) = bind_all overrides providers required_deps
    let (optional, _) = bind_all overrides providers optional_deps
    returned (required ++ optional, missing)
