-- ===== src/Process/Properties/Keeping.antt =====
-- A property request keeps an instance sound, whatever the callback for it sends.
use libdsvdc.Base.{ℕ, suc, ◌+◌, ◌-◌, refl, Option, none, some, [], ◌∷◌, ◌++◌, Bytes, arith}
use libdsvdc.Effects.{heap, unlock, ◌>>◌}
use libdsvdc.Effects.Ends.{Ends, ends, heap-bind}
use libdsvdc.Handle.{Callbacks, Call, State, Env}
use libdsvdc.Invariant.{IsSound, IsSound-grown, Kept, Keeps, skip-Keeps}
use libdsvdc.Memory.{spend, release}
use libdsvdc.Message.{Message, PropertyRequest}
use libdsvdc.Process.Properties.{
  copy_query, call_with, request_on, serve, process_request, process_get_property,
  process_set_property,
}
use libdsvdc.Property.{Elements, null, vector, Slots}
use libdsvdc.Property.Copy.{property_new, convert_query}
use libdsvdc.Property.Copy.Plenty.{query_of, property_new-Yields, convert_query-Yields}
use libdsvdc.Property.Free.{property_free}
use libdsvdc.Property.Lost.{property_free-FreesBut}
use libdsvdc.Property.Whole.{FormedSlots, blocks}
use libdsvdc.Invariant.Careful.{IsCareful}
use libdsvdc.Invariant.Sending.{attended}
use libdsvdc.Process.Properties.Serving.{
  request_call, FormedRequest, unasked, asked, FormedOptionalRequest,
}

module _ (env : Env) (careful : IsCareful env) where
  -- The end, in the state `t` after the call: the copy of the query is freed.
  free_query-Kept :
      {slots : Slots} {n : ℕ} (s t : State)
      → FormedSlots slots (suc n)
      → Kept (record s { locks = s.locks + 1 }) t
      → Ends (λ _ q. Kept s q) ((heap (property_free (some (query_of slots (suc n)))) >> unlock) t)
  free_query-Kept {slots} {n} s t ws k =
      let (j, count, freed) = property_free-FreesBut none ws in
      heap-bind (property_free (some (query_of slots (suc n)))) t (λ _. unlock) (freed t.mem)
        (ends {s = record t { mem = release t.mem j; locks = t.locks - 1 }} (record {
          sound = IsSound-grown {n = release t.mem j} k.sound (omega arith) refl;
          locks = omega (arith, k.locks);
        }))

  -- The call, with a block taken for the answer's property and `j` for the copy of the query.
  called-Kept :
      (c : Call) (s : State) (j : ℕ)
      → IsSound s.handle s.mem
      → Kept
          (record s { locks = s.locks + 1 })
          (env.react c (record s {
            locks = s.locks + 1;
            mem = spend (spend s.mem 1) j;
            calls = s.calls ++ c ∷ [];
          })).0
  called-Kept c s j v =
      let a =
        attended env careful c (record s { locks = s.locks + 1; mem = spend (spend s.mem 1) j })
          (IsSound-grown {n = spend (spend s.mem 1) j} v (omega arith) refl) in
      record { sound = a.kept.sound; locks = a.kept.locks }

  serve-Kept :
      {slots : Slots} {n : ℕ} (o : Option ℕ) (dsuid : Bytes) (id : ℕ) (s : State)
      → FormedSlots slots (suc n)
      → IsSound s.handle s.mem
      → Ends
          (λ _ t. Kept s t)
          (serve env dsuid (vector slots) (suc n) id o (record s { locks = s.locks + 1 }))
  serve-Kept none dsuid id s ws v = ends (record { sound = v; locks = omega arith })
  serve-Kept {slots} {n} (some f) dsuid id s ws v =
      heap-bind property_new (record s { locks = s.locks + 1 })
        (copy_query env f dsuid (vector slots) (suc n) id) (property_new-Yields s.mem v.plentiful)
        (heap-bind (convert_query (vector slots) (suc n))
          (record s { locks = s.locks + 1; mem = spend s.mem 1 })
          (call_with env f dsuid id
            (record { message_id = none; properties = null; n_properties = 0 }))
          (convert_query-Yields ws (spend s.mem 1) v.plentiful)
          (free_query-Kept s _ ws (
            called-Kept (request_call f dsuid id slots (suc n) s.handle.callback_userdata) s
              (1 + (blocks (vector slots) + 0)) v)))

  request_on-Kept :
      (callback : Callbacks → Option ℕ) {els : Elements} {n : ℕ} (id : ℕ) (o : Option Bytes)
      → FormedRequest els n
      → Keeps (request_on env callback n id els o)
  request_on-Kept callback id none w s v = skip-Keeps s v
  request_on-Kept callback id (some dsuid) unasked s v = skip-Keeps s v
  request_on-Kept callback id (some dsuid) (asked ws) s v =
      serve-Kept (callback s.handle.callbacks) dsuid id s ws v

  -- An optional request is as unpacking gives it.
  process_request-Keeps :
      (callback : Callbacks → Option ℕ) (o : Option PropertyRequest) (id : ℕ)
      → FormedOptionalRequest o
      → Keeps (process_request env callback o id)
  process_request-Keeps callback none id w = skip-Keeps
  process_request-Keeps callback (some request) id w = request_on-Kept callback id request.dsuid w

  pub process_get_property-Keeps :
      (msg : Message)
      → FormedOptionalRequest msg.vdsm_request_get_property
      → Keeps (process_get_property env msg)
  unfolding process_get_property
  process_get_property-Keeps msg w =
      process_request-Keeps _ msg.vdsm_request_get_property msg.message_id w

  pub process_set_property-Keeps :
      (msg : Message)
      → FormedOptionalRequest msg.vdsm_request_set_property
      → Keeps (process_set_property env msg)
  unfolding process_set_property
  process_set_property-Keeps msg w =
      process_request-Keeps _ msg.vdsm_request_set_property msg.message_id w
