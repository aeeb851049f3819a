-- ===== src/Process/Properties/Serving.antt =====
-- What a property request does, where memory suffices.
use mathlib.Core.Path.{subst}
use libdsvdc.Base.{
  ℕ, suc, ◌+◌, ◌-◌, ◌≤◌, ◌≡◌, refl, sym, Option, none, some, [], ◌∷◌, ◌++◌, Bytes, arith,
}
use libdsvdc.Effects.{heap, unlock, ◌>>◌}
use libdsvdc.Effects.Ends.{Ends, ends, heap-bind}
use libdsvdc.Handle.{Call, State, Env, properties}
use libdsvdc.Memory.{IsPlentiful, Holding, spend, release}
use libdsvdc.Message.{Message, PropertyRequest}
use libdsvdc.Process.Properties.{
  copy_query, call_with, request_on, serve, process_request, process_get_property,
}
use libdsvdc.Property.{Elements, null, vector, Slots}
use libdsvdc.Property.Copy.{property_new, convert_query}
use libdsvdc.Property.Copy.Plenty.{query_of, property_new-Yields, convert_query-Yields}
use libdsvdc.Property.Free.{property_free}
use libdsvdc.Property.Lost.{property_free-FreesBut}
use libdsvdc.Property.Whole.{FormedSlots, blocks, lost}
use libdsvdc.Requests.Answers.{IsModest}

-- The elements of a request, as unpacking gives them: none, or a well-formed array.
pub data FormedRequest : Elements → ℕ → Type 0 where
  unasked : FormedRequest null 0
  asked : {slots : Slots} {n : ℕ} → FormedSlots slots (suc n) → FormedRequest (vector slots) (suc n)

abbrev pub FormedOptionalRequest : Option PropertyRequest → Type 0
FormedOptionalRequest none = Unit {0}
FormedOptionalRequest (some request) = FormedRequest request.elements request.n_elements

-- The application's call: the dSUID, an empty property with the id for the answer, and the query.
abbrev pub request_call : ℕ → Bytes → ℕ → Slots → ℕ → ℕ → Call
request_call f dsuid id slots n userdata = record {
  function = f;
  arguments =
      properties dsuid (record { message_id = some id; properties = null; n_properties = 0 })
        (query_of slots n);
  userdata = userdata;
}

-- The application was called once, and one block more is held, that of the property for the
-- answer, besides `leak` blocks that nothing points to any more.
pub record Served (s : State) (call : Call) (leak : ℕ) (t : State) : Type 0 where
  pub handle : t.handle ≡ s.handle
  pub locks : t.locks ≡ s.locks
  pub calls : t.calls ≡ s.calls ++ call ∷ []
  pub blocks : Holding s.mem t.mem (1 + leak)
  pub grown : s.mem.allocs ≤ t.mem.allocs
  pub grants : t.mem.grants ≡ s.mem.grants

module _ (env : Env) (modest : IsModest env) where
  -- The end, in the state `t` after the call: the copy of the query is freed.
  free_query-Served :
      {slots : Slots} {n : ℕ} (s t : State) (call : Call)
      → FormedSlots slots (suc n)
      → t.handle ≡ s.handle
      → t.locks ≡ s.locks + 1
      → t.calls ≡ s.calls ++ call ∷ []
      → t.mem ≡ spend (spend s.mem 1) (1 + (blocks (vector slots) + 0))
      → Ends
          (λ _ q. Served s call (lost (vector slots)) q)
          ((heap (property_free (some (query_of slots (suc n)))) >> unlock) t)
  free_query-Served {slots} {n} s t call ws h l c m =
      let (k, count, freed) = property_free-FreesBut none ws in
      heap-bind (property_free (some (query_of slots (suc n)))) t (λ _. unlock) (freed t.mem)
        (ends {s = record t { mem = release t.mem k; locks = t.locks - 1 }} (record {
          handle = h;
          locks = omega arith;
          calls = c;
          blocks = rw m (omega arith);
          grown = rw m (omega arith);
          grants = rw m refl;
        }))

  serve-Served :
      {slots : Slots} {n : ℕ} (f : ℕ) (dsuid : Bytes) (id : ℕ) (s : State)
      → FormedSlots slots (suc n)
      → IsPlentiful s.mem
      → Ends
          (λ _ t.
            Served s
              (request_call f dsuid id slots (suc n) s.handle.callback_userdata)
              (lost (vector slots))
              t)
          (serve env dsuid (vector slots) (suc n) id (some f) (record s { locks = s.locks + 1 }))
  serve-Served {slots} {n} f dsuid id s ws plenty =
      heap-bind property_new (record s { locks = s.locks + 1 })
        (copy_query env f dsuid (vector slots) (suc n) id) (property_new-Yields s.mem plenty)
        (heap-bind (convert_query (vector slots) (suc n))
          (record s { locks = s.locks + 1; mem = spend s.mem 1 })
          (call_with env f dsuid id
            (record { message_id = none; properties = null; n_properties = 0 }))
          (convert_query-Yields ws (spend s.mem 1) plenty)
          (free_query-Served s _ (request_call f dsuid id slots (suc n) s.handle.callback_userdata)
            ws (modest.handle _ _) (modest.locks _ _) (modest.calls _ _) (modest.mem _ _)))

  -- To a request for properties with a dSUID and a well-formed array of at least one element (each
  -- array has as many elements as its count says, and all bytes are as long as they say), where
  -- memory suffices and the application, which has registered a callback for it, does not use the
  -- library from inside a callback, `dsvdc_process_get_property` ends: the application was called
  -- once, with the dSUID, an empty property that bears the request's id, and an equal copy of the
  -- query; the copy was freed, save the bytes of each value that holds a text too, which are
  -- leaked, and one block more is held, that of the property for the answer.
  pub process_get_property-Served :
      {slots : Slots} {n : ℕ} (msg : Message) (request : PropertyRequest) (dsuid : Bytes) (f : ℕ)
      (s : State)
      → msg.vdsm_request_get_property ≡ some request
      → request.dsuid ≡ some dsuid
      → request.elements ≡ vector slots
      → request.n_elements ≡ suc n
      → FormedSlots slots (suc n)
      → s.handle.callbacks.vdsm_request_get_property ≡ some f
      → IsPlentiful s.mem
      → Ends
          (λ _ t.
            Served s
              (request_call f dsuid msg.message_id slots (suc n) s.handle.callback_userdata)
              (lost (vector slots))
              t)
          (process_get_property env msg s)
  unfolding process_get_property
  process_get_property-Served {slots} {n} msg request dsuid f s m d els count ws callback plenty =
      let Post = λ (t : State).
        Served s (request_call f dsuid msg.message_id slots (suc n) s.handle.callback_userdata)
          (lost (vector slots)) t in
      subst
        (λ o.
          Ends (λ _ t. Post t)
            (process_request env (λ c. c.vdsm_request_get_property) o msg.message_id s))
        (sym m)
        (subst
          (λ o.
            Ends (λ _ t. Post t)
              (request_on env (λ c. c.vdsm_request_get_property) request.n_elements msg.message_id
                request.elements o s))
          (sym d)
          (subst
            (λ o.
              Ends (λ _ t. Post t)
                (request_on env (λ c. c.vdsm_request_get_property) request.n_elements msg.message_id
                  o (some dsuid) s))
            (sym els)
            (subst
              (λ o.
                Ends (λ _ t. Post t)
                  (request_on env (λ c. c.vdsm_request_get_property) o msg.message_id (vector slots)
                    (some dsuid) s))
              (sym count)
              (subst
                (λ o.
                  Ends (λ _ t. Post t)
                    (serve env dsuid (vector slots) (suc n) msg.message_id o
                      (record s { locks = s.locks + 1 })))
                (sym callback) (serve-Served f dsuid msg.message_id s ws plenty)))))
