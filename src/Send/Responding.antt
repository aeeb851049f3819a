-- ===== src/Send/Responding.antt =====
-- `dsvdc_send_set_property_response`: the answer that goes out, and the property that is freed.
use libdsvdc.Base.{ℕ, ◌+◌, ◌≡◌, refl, true, some, arith}
use libdsvdc.Codes.{Code}
use libdsvdc.Effects.Ends.{Ends, ends, Ends-bind}
use libdsvdc.Handle.{State, Env}
use libdsvdc.Memory.{Mem, ok, Holding, release, free-ok}
use libdsvdc.Message.{
  generic_response_type, generic_response, ResultCode, Outgoing, vdc_response_get_property_type,
  vdc_response_get_property,
}
use libdsvdc.Property.{null, Property}
use libdsvdc.Property.Build.Grows.{WholeProperty, empty, filled, size}
use libdsvdc.Property.Freed.{property_free-Frees}
use libdsvdc.Property.Packing.{packable, packable-FormedSlots}
use libdsvdc.Property.Whole.{blocks, formed}
use libdsvdc.Property.Free.{property_free}
use libdsvdc.Send.{
  description, result_code, error_message, send_error_message, send_set_property_response,
  send_get_property_response,
}
use libdsvdc.Send.Frame.{Sent, Reported, Reported-same, send_message-Sent}

-- The number of a code in the API.
abbrev pub code_number : ResultCode → ℕ
code_number ResultCode.err_ok = 0
code_number ResultCode.err_message_unknown = 1
code_number ResultCode.err_incompatible_api = 2
code_number ResultCode.err_service_not_available = 3
code_number ResultCode.err_insufficient_storage = 4
code_number ResultCode.err_forbidden = 5
code_number ResultCode.err_not_implemented = 6
code_number ResultCode.err_no_content_for_array = 7
code_number ResultCode.err_invalid_value_type = 8
code_number ResultCode.err_missing_submessage = 9
code_number ResultCode.err_missing_data = 10
code_number ResultCode.err_not_found = 11
code_number ResultCode.err_not_authorized = 12

result_code-code_number : (code : ResultCode) → result_code (code_number code) ≡ some code
unfolding result_code
result_code-code_number ResultCode.err_ok = refl
result_code-code_number ResultCode.err_message_unknown = refl
result_code-code_number ResultCode.err_incompatible_api = refl
result_code-code_number ResultCode.err_service_not_available = refl
result_code-code_number ResultCode.err_insufficient_storage = refl
result_code-code_number ResultCode.err_forbidden = refl
result_code-code_number ResultCode.err_not_implemented = refl
result_code-code_number ResultCode.err_no_content_for_array = refl
result_code-code_number ResultCode.err_invalid_value_type = refl
result_code-code_number ResultCode.err_missing_submessage = refl
result_code-code_number ResultCode.err_missing_data = refl
result_code-code_number ResultCode.err_not_found = refl
result_code-code_number ResultCode.err_not_authorized = refl

-- The property that a callback gets for its answer.
abbrev pub answer_property : ℕ → Property
answer_property id = record { message_id = some id; properties = null; n_properties = 0 }

property_free-empty :
    (id : ℕ) (m : Mem) → property_free (some (answer_property id)) m ≡ ok tt (release m 1)
unfolding property_free
property_free-empty id m = free-ok m

-- The answer of that code and id.
abbrev pub code_message : ResultCode → ℕ → Outgoing
code_message answer id = record {
  type = generic_response_type;
  has_message_id = true;
  message_id = id;
  body = generic_response answer (description answer);
}

-- The answer went out, or as much of it as the socket took; the property's block was freed in any
-- case.
pub record Replied (env : Env) (answer : ResultCode) (id : ℕ) (s t : State) : Type 0 where
  pub handle : t.handle ≡ s.handle
  pub locks : t.locks ≡ s.locks
  pub calls : t.calls ≡ s.calls
  pub freed : Holding t.mem s.mem 1
  pub code : Code
  pub report : Reported (env.pack (code_message answer id)) s t code

pub send_set_property_response-Replied :
    (env : Env) (answer : ResultCode) (id : ℕ) (s : State)
    → Ends
        (λ _ t. Replied env answer id s t)
        (send_set_property_response env true (some (answer_property id)) (code_number answer) s)
unfolding send_set_property_response send_error_message
send_set_property_response-Replied env answer id s =
    rw (send_set_property_response, result_code-code_number answer)
      (Ends-bind
        (Ends-bind {Q = λ _ t. (code : Code) × Sent env (error_message answer id) s code t}
          (send_message-Sent env (error_message answer id) s) λ code t p. ends (code, p))
        λ _ t (code, (u, r)). rw (property_free-empty id t.mem) (
          ends (record {
            handle = u.handle;
            locks = u.locks;
            calls = u.calls;
            freed = omega (arith, u.blocks);
            code = code;
            report = Reported-same refl refl refl refl refl refl r;
          })))

-- The message of `dsvdc_send_get_property_response`.
abbrev pub get_property_message : ℕ → Property → Outgoing
get_property_message id p = record {
  type = vdc_response_get_property_type;
  has_message_id = true;
  message_id = id;
  body = vdc_response_get_property p.n_properties p.properties;
}

-- An answer with the elements of a well-formed property went out, or could not be sent; `k` blocks
-- were freed in any case.
pub data Answered (env : Env) (id k : ℕ) (s t : State) : Type 0 where
  answered :
      (p : Property) (code : Code)
      → WholeProperty p
      → t.handle ≡ s.handle
      → t.locks ≡ s.locks
      → t.calls ≡ s.calls
      → Holding t.mem s.mem k
      → Reported (env.pack (get_property_message id p)) s t code
      → Answered env id k s t

property_free-whole :
    {p : Property} (m : Mem)
    → WholeProperty p
    → property_free (some p) m ≡ ok tt (release m (size p + 1))
unfolding property_free blocks
property_free-whole m (empty id) = free-ok m
property_free-whole m (filled id ws) = property_free-Frees id ws m

packable-WholeProperty :
    {p : Property} → WholeProperty p → packable p.properties p.n_properties ≡ true
unfolding packable
packable-WholeProperty (empty id) = refl
packable-WholeProperty (filled id ws) = packable-FormedSlots (formed ws)

pub send_get_property_response-Answered :
    (env : Env) (p : Property) (id : ℕ) (s : State)
    → WholeProperty p
    → p.message_id ≡ some id
    → Ends
        (λ _ t. Answered env id (size p + 1) s t)
        (send_get_property_response env true (some p) s)
unfolding send_get_property_response property_free
send_get_property_response-Answered env p id s w e =
    rw (send_get_property_response, e, packable-WholeProperty w)
      (Ends-bind (send_message-Sent env (get_property_message id p) s) λ code t (u, r).
        rw (property_free-whole t.mem w) (
          ends (
            answered p code w u.handle u.locks u.calls (omega (arith, u.blocks))
              (Reported-same refl refl refl refl refl refl r))))
