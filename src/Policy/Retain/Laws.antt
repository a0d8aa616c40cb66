-- ===== src/Policy/Retain/Laws.antt =====
-- An unsafe retain never reaches the memory service, and what reaches it carries the router's own
-- provenance (memory_router/policy.py).
use hindsight_memory_router.Common.Action.{Act-cases}
use hindsight_memory_router.Json.{Json, Fields, string, field, end}
use hindsight_memory_router.Common.{
  arith, ◌≡◌, refl, sym, inl, inr, ◌⊎◌, Bool-cases, eq_iff, String, Bool, true, false, Option, some,
  ◌==◌, if◌then◌else◌, Error, http_error, value_error, runtime_error, gateway_error, ok, err,
}
use hindsight_memory_router.Policy.{Scan, is_safe, Env, Scene, Call, lookup_field, put_field}
use hindsight_memory_router.Policy.Recall.Requests.{request_dedupe_key}
use hindsight_memory_router.Policy.Retain.{
  RetainBody, IdentityMode, body_json, metadata_of, prepare_item, prepare_retain_body,
  quarantine_retain, write_retain, retain_to_bank,
}

pub lookup_field-put_field :
    (k j : String) (v : Json) (fs : Fields)
    → lookup_field j (put_field k v fs) ≡ (if k == j then some v else lookup_field j fs)
unfolding lookup_field put_field
lookup_field-put_field k j v end = refl
lookup_field-put_field k j v (field n w fs) =
    ground (arith, eq_iff k j, eq_iff n k, eq_iff n j, lookup_field-put_field k j v fs)

-- the metadata of an item
abbrev pub metadata : Fields → Fields
metadata item = metadata_of (lookup_field "metadata" item)

-- the value that a key of the metadata has after the router's four are written
abbrev pub stamped : String → String → String → String → String → Option Json → Option Json
stamped writer source bank decision key before =
    if "router_target_bank" == key
    then some (string bank)
    else if "router_decision" == key
    then some (string decision)
    else if "router_source" == key
    then some (string source)
    else if "router_writer_id" == key
    then some (string writer)
    else before

-- Whatever metadata an item came with, the prepared item's router_writer_id, router_source,
-- router_decision and router_target_bank are the router's; every other entry of the metadata and of
-- the item is as it was.
pub prepare_item-metadata :
    (writer source bank decision key : String) (item : Fields)
    → (lookup_field key (metadata (prepare_item writer source bank decision item))
        ≡ stamped writer source bank decision key (lookup_field key (metadata item)))
      × ((key ≡ "metadata")
          ⊎ (lookup_field key (prepare_item writer source bank decision item)
              ≡ lookup_field key item))
unfolding prepare_item
prepare_item-metadata writer source bank decision key item = (
  simp (lookup_field-put_field),
  elim (Bool-cases ("metadata" == key)) [
    | inl same ↦ inl (sym ((eq_iff "metadata" key).0 same))
    | inr other ↦ inr (simp (lookup_field-put_field, other))
  ],
)

module _ {W : Type 0} (env : Env W) (other : String → Json → Call W Json) where
  -- A body that the scan finds unsafe is never written: the outcome and the state after it are the
  -- same whatever the memory service would do with a retain.
  pub retain_to_bank_unsafe :
      (identity bank : String) (body : RetainBody) (source : String) (mode : IdentityMode)
      (scan : Scan) (s : Scene W) (w1 w2 : W)
      → env.consume_retain identity s.world ≡ (ok tt, w1)
      → env.scan_request (body_json body) w1 ≡ (ok scan, w2)
      → is_safe scan ≡ false
      → retain_to_bank (record env { retain = other }) identity bank body source mode s
        ≡ retain_to_bank env identity bank body source mode s
  unfolding retain_to_bank quarantine_retain request_dedupe_key
  retain_to_bank_unsafe identity bank body source mode scan s w1 w2 c r u = ground arith

abbrev pub is_gateway_error : Error → Bool
is_gateway_error (gateway_error kind upstream status) = true
is_gateway_error e = false

module _ {W : Type 0} (env : Env W) where
  -- When the memory service accepted the write, a raise leaves the state as the scan of its answer
  -- left it, so nothing is queued or written again; and the raise is an error of the gateway, unless
  -- the scan itself raised something that is no HttpError.
  pub write_retain_unacknowledged :
      (identity bank : String) (body : RetainBody) (source : String) (value : Json) (s s' : Scene W)
      (w : W) (e : Error)
      → env.retain bank
          (body_json (prepare_retain_body body identity source bank "allowed"))
          s.world
        ≡ (ok value, w)
      → write_retain env identity bank body source s ≡ (err e, s')
      → (s'.world ≡ (env.scan_response value w).1)
        × ((is_gateway_error e ≡ true) ⊎ ((env.scan_response value w).0 ≡ err e))
  unfolding write_retain
  write_retain_unacknowledged identity bank body source value s s' w e h k =
      elim (Act-cases (env.scan_response value w)) [
        | inl (scan, w', q) ↦ elim (Bool-cases (is_safe scan)) [
          | inl safe ↦ absurd (ground arith)
          | inr unsafe ↦ (ground arith, inl (ground arith))
        ]
        | inr (http_error status code, w', q) ↦ (ground arith, inl (ground arith))
        | inr (gateway_error kind upstream status, w', q) ↦ (ground arith, inl (ground arith))
        | inr (value_error text, w', q) ↦ (ground arith, inr (ground arith))
        | inr (runtime_error text, w', q) ↦ (ground arith, inr (ground arith))
      ]
