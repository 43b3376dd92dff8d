-- ===== src/Mind/Modes/Routing.antt =====
-- `mode_routing_decision`, `route_context_blocks` and `_block_routing_decision` of
-- backend/app/mind/agent_modes.py.
use Prim.Native.String.{◌++◌ as ◌<>◌}
use llm_api_mind.Base.{
  ℕ, suc, String, Option, none, some, List, [], ◌∷◌, map, filter, find, flat_map, Bool, true, false,
  ◌==◌, ◌&&◌, not, contains, ◌⊎◌, inl, inr, ◌≡◌, refl, sym, ap, ◌∙◌, arith, filter-keep,
  filter-reject, Bool-cases, if◌then◌else◌,
}
use llm_api_mind.Base.Json.{Json, null, str, Fields, end, field, get}
use llm_api_mind.Storage.Models.{is_text}
use llm_api_mind.Chronology.Python.{Python}
use llm_api_mind.Chronology.Messages.{truthy}
use llm_api_mind.Mind.Modes.{ModeCapabilitySpec, mode_capabilities, agent_mode_values}

pub record BlockDecision : Type 0 where
  pub input_index : ℕ
  pub block_id : Option String
  pub block_type : String
  pub capability : Option String
  pub capability_status : Option String
  pub required_mode_tags : List String
  pub eligibility : String
  pub delivery_disposition : String
  pub delivered : Bool

pub record RoutingDecision : Type 0 where
  pub active_tag : String
  pub routing_mode : String
  pub routing_applied : Bool
  pub eligible_capabilities : List String
  pub included_block_ids : List String
  pub included_block_types : List String
  pub excluded_block_ids : List String
  pub excluded_block_types : List String
  pub ineligible_block_types : List String
  pub would_exclude_block_types : List String
  pub unregistered_block_types : List String
  pub block_decisions : List BlockDecision

abbrev text_id : Option Json → Option String
text_id (some (str t)) = some t
text_id _ = none

-- the spec of a block type; each type stands once in the registry
unfoldable pub spec_of : String → Option ModeCapabilitySpec
unfolding mode_capabilities
spec_of type = find (λ s. is_text s.context_block_type type) mode_capabilities

-- the disposition of a registered block, and whether it is delivered
unfoldable pub disposition : (eligible : Bool) (routing_mode : String) → String × Bool
disposition eligible routing_mode =
    if routing_mode == "active" && not eligible
    then ("excluded", false)
    else if routing_mode == "shadow" && not eligible
    then ("shadow_included", true)
    else if routing_mode == "off"
    then ("included_routing_off", true)
    else ("included", true)

abbrev typed : List BlockDecision → List String
typed l = map (λ b. b.block_type) l

abbrev listed : Option String → List String
listed none = []
listed (some t) = t ∷ []

abbrev ids_of : List BlockDecision → List String
ids_of l = flat_map (λ b. listed b.block_id) l

module _ (py : Python) where
  abbrev type_text : Option Json → String
  type_text none = ""
  type_text (some v) = if truthy py v then py.text_of v else ""

  unfoldable pub block_type_of : Fields → String
  block_type_of block = type_text (get block "type")

  unfoldable pub block_routing_decision :
      Fields
      → (input_index : ℕ) (active_tag routing_mode : String) → Option ModeCapabilitySpec
      → BlockDecision
  unfolding block_type_of disposition
  block_routing_decision block index active_tag routing_mode none = record {
    input_index = index;
    block_id = text_id (get block "id");
    block_type = block_type_of block;
    capability = none;
    capability_status = none;
    required_mode_tags = [];
    eligibility = "unregistered";
    delivery_disposition = "included_unregistered";
    delivered = true;
  }
  block_routing_decision block index active_tag routing_mode (some spec) =
      let eligible : Bool = contains spec.mode_tags active_tag in
      let d : String × Bool = disposition eligible routing_mode in
      record {
        input_index = index;
        block_id = text_id (get block "id");
        block_type = block_type_of block;
        capability = some spec.capability;
        capability_status = some spec.status;
        required_mode_tags = spec.mode_tags;
        eligibility = if eligible then "eligible" else "ineligible";
        delivery_disposition = d.0;
        delivered = d.1;
      }

  unfoldable pub decisions :
      (active_tag routing_mode : String) → (n : ℕ) → List Fields → List BlockDecision
  decisions active_tag routing_mode n [] = []
  decisions active_tag routing_mode n (block ∷ blocks) =
      block_routing_decision block n active_tag routing_mode (spec_of (block_type_of block))
      ∷ decisions active_tag routing_mode (suc n) blocks

  -- the inputs where the blocks are absent or empty: one for each type
  unfoldable pub routing_inputs : (blocks : List Fields) (block_types : List String) → List Fields
  routing_inputs [] types = map (λ t. field "id" null (field "type" (str t) end)) types
  routing_inputs (b ∷ blocks) types = b ∷ blocks

  unfoldable pub decision_of :
      (active_tag routing_mode : String) → List BlockDecision → RoutingDecision
  unfolding mode_capabilities
  decision_of active_tag routing_mode l = record {
    active_tag = active_tag;
    routing_mode = routing_mode;
    routing_applied = routing_mode == "active";
    eligible_capabilities =
        map (λ s. s.capability) (filter (λ s. contains s.mode_tags active_tag) mode_capabilities);
    included_block_ids = ids_of (filter (λ b. b.delivered) l);
    included_block_types = typed (filter (λ b. b.delivered) l);
    excluded_block_ids = ids_of (filter (λ b. not b.delivered) l);
    excluded_block_types = typed (filter (λ b. not b.delivered) l);
    ineligible_block_types = typed (filter (λ b. b.eligibility == "ineligible") l);
    would_exclude_block_types = typed (filter (λ b. b.delivery_disposition == "shadow_included") l);
    unregistered_block_types = typed (filter (λ b. b.eligibility == "unregistered") l);
    block_decisions = l;
  }

  -- `inl` is a `ValueError` with its text.
  unfoldable pub mode_routing_decision :
      (active_tag routing_mode : String)
      → (blocks : List Fields) (block_types : List String) → String ⊎ RoutingDecision
  unfolding decisions routing_inputs decision_of
  mode_routing_decision active_tag routing_mode blocks block_types =
      if not (contains agent_mode_values active_tag)
      then inl ("Unsupported active agent mode: " <> active_tag)
      else if not (contains ("off" ∷ "shadow" ∷ "active" ∷ []) routing_mode)
      then inl ("Unsupported agent mode routing: " <> routing_mode)
      else inr (
          decision_of active_tag routing_mode
            (decisions active_tag routing_mode 0 (routing_inputs blocks block_types)))

  -- the blocks whose decision delivers them; `inl` is the `ValueError` of `zip(..., strict=True)`
  unfoldable pub routed : List Fields → List BlockDecision → String ⊎ List Fields
  routed [] [] = inr []
  routed [] (d ∷ l) = inl "zip() argument 2 is longer than argument 1"
  routed (b ∷ blocks) [] = inl "zip() argument 2 is shorter than argument 1"
  routed (b ∷ blocks) (d ∷ l) =
      let rest = routed blocks l in
      elim rest [ inl e ↦ inl e | inr kept ↦ inr (if d.delivered then b ∷ kept else kept) ]

  unfoldable pub route_context_blocks :
      List Fields → (active_tag routing_mode : String) → String ⊎ (List Fields × RoutingDecision)
  unfolding mode_routing_decision routed
  route_context_blocks blocks active_tag routing_mode =
      elim (mode_routing_decision active_tag routing_mode blocks []) [
        | inl e ↦ inl e
        | inr decision ↦ elim (routed blocks decision.block_decisions) [
          | inl e ↦ inl e
          | inr kept ↦ inr (kept, decision)
        ]
      ]

  -- Only active routing withholds a block, and only one whose registered capability lacks the tag.
  abbrev pub withheld : (active_tag routing_mode : String) → Option ModeCapabilitySpec → Bool
  withheld active_tag routing_mode none = false
  withheld active_tag routing_mode (some spec) =
      routing_mode == "active" && not (contains spec.mode_tags active_tag)

  abbrev pub passes : (active_tag routing_mode : String) → Fields → Bool
  passes active_tag routing_mode block =
      not (withheld active_tag routing_mode (spec_of (block_type_of block)))

  delivered-passes :
      (block : Fields) (n : ℕ) (active_tag routing_mode : String) (s : Option ModeCapabilitySpec)
      → (block_routing_decision block n active_tag routing_mode s).delivered
        ≡ not (withheld active_tag routing_mode s)
  unfolding block_routing_decision disposition
  delivered-passes block n active_tag routing_mode none = refl
  delivered-passes block n active_tag routing_mode (some spec) = ground arith

  routed_cons :
      (b : Fields) (d : BlockDecision) (blocks : List Fields) (l : List BlockDecision)
      → {kept : List Fields} → routed blocks l ≡ inr kept
      → routed (b ∷ blocks) (d ∷ l) ≡ inr (if d.delivered then b ∷ kept else kept)
  unfolding routed
  routed_cons b d blocks l e = rw (routed, e) refl

  filter_step :
      (p : Fields → Bool) (b : Fields) (blocks : List Fields)
      → filter p (b ∷ blocks) ≡ (if p b then b ∷ filter p blocks else filter p blocks)
  filter_step p b blocks = elim (Bool-cases (p b)) [
    | inl e ↦ filter-keep p b blocks e ∙ rw e refl
    | inr e ↦ filter-reject p b blocks e ∙ rw e refl
  ]

  routed-decisions :
      (active_tag routing_mode : String) (blocks : List Fields) (n : ℕ)
      → routed blocks (decisions active_tag routing_mode n blocks)
        ≡ inr (filter (passes active_tag routing_mode) blocks)
  unfolding decisions
  routed-decisions active_tag routing_mode [] n = unfold routed in refl
  routed-decisions active_tag routing_mode (b ∷ blocks) n =
      let kept : List Fields = filter (passes active_tag routing_mode) blocks in
      routed_cons b (block_routing_decision b n active_tag routing_mode (spec_of (block_type_of b)))
        blocks (decisions active_tag routing_mode (suc n) blocks)
        (routed-decisions active_tag routing_mode blocks (suc n))
      ∙ ap (λ d. inr (if d then b ∷ kept else kept))
          (delivered-passes b n active_tag routing_mode (spec_of (block_type_of b)))
      ∙ ap (λ l. inr l) (sym (filter_step (passes active_tag routing_mode) b blocks))

  route_known :
      (blocks : List Fields) (active_tag routing_mode : String)
      → contains agent_mode_values active_tag ≡ true
      → contains ("off" ∷ "shadow" ∷ "active" ∷ []) routing_mode ≡ true
      → mode_routing_decision active_tag routing_mode blocks []
        ≡ inr (
            decision_of active_tag routing_mode
              (decisions active_tag routing_mode 0 (routing_inputs blocks [])))
  unfolding mode_routing_decision
  route_known blocks active_tag routing_mode tag mode =
      ap (λ b. if not b then inl ("Unsupported active agent mode: " <> active_tag) else rest) tag
      ∙ ap
          (λ b.
            if not b then inl ("Unsupported agent mode routing: " <> routing_mode) else inr made)
          mode
    where
      made : RoutingDecision
      made =
          decision_of active_tag routing_mode
            (decisions active_tag routing_mode 0 (routing_inputs blocks []))

      rest : String ⊎ RoutingDecision
      rest =
          if not (contains ("off" ∷ "shadow" ∷ "active" ∷ []) routing_mode)
          then inl ("Unsupported agent mode routing: " <> routing_mode)
          else inr made

  no_types : (blocks : List Fields) → routing_inputs blocks [] ≡ blocks
  unfolding routing_inputs
  no_types [] = refl
  no_types (b ∷ blocks) = refl

  route_delivers :
      (blocks kept : List Fields) (active_tag routing_mode : String) (decision : RoutingDecision)
      → mode_routing_decision active_tag routing_mode blocks [] ≡ inr decision
      → routed blocks decision.block_decisions ≡ inr kept
      → route_context_blocks blocks active_tag routing_mode ≡ inr (kept, decision)
  unfolding route_context_blocks
  route_delivers blocks kept active_tag routing_mode decision e f =
      rw (route_context_blocks, e) (rw f refl)

  -- With a known mode and a known routing, the routing of blocks raises nothing and delivers, in
  -- their order, all blocks but the ones that it withholds: under active routing, those of a
  -- registered type whose capability does not have the tag; under off and shadow, none.
  pub route-eq-filter :
      (blocks : List Fields) (active_tag routing_mode : String)
      → contains agent_mode_values active_tag ≡ true
      → contains ("off" ∷ "shadow" ∷ "active" ∷ []) routing_mode ≡ true
      → (decision : RoutingDecision) × (route_context_blocks blocks active_tag routing_mode
          ≡ inr (filter (passes active_tag routing_mode) blocks, decision))
  unfolding decision_of
  route-eq-filter blocks active_tag routing_mode tag mode = (
    decision_of active_tag routing_mode
        (decisions active_tag routing_mode 0 (routing_inputs blocks [])),
    route_delivers blocks _ active_tag routing_mode _
        (route_known blocks active_tag routing_mode tag mode)
        (ap (λ l. routed blocks (decisions active_tag routing_mode 0 l)) (no_types blocks)
          ∙ routed-decisions active_tag routing_mode blocks 0),
  )
