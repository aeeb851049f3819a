-- ===== src/Reference/GetProperty/Requests.antt =====
-- `getprop_cb`: a request ends with one answer, and with no block left behind.
use libdsvdc.Base.{
  ℕ, suc, ◌+◌, ◌≡◌, refl, ap, ◌∙◌, Bool, ◌||◌, inl, inr, Bool-cases, none, some, Bytes,
  if◌then◌else◌, arith,
}
use libdsvdc.Effects.Ends.{Ends, ends, Ends-bind, heap-Ends}
use libdsvdc.Handle.{State, Env}
use libdsvdc.Memory.{IsPlentiful}
use libdsvdc.Property.{Slots}
use libdsvdc.Property.Access.{get_num_properties, slot_at}
use libdsvdc.Property.Build.Grows.{empty, grown_to}
use libdsvdc.Property.Copy.Plenty.{query_of}
use libdsvdc.Property.Whole.{FormedSlots, blocks}
use libdsvdc.Reference.GetProperty.{respond, getprop}
use libdsvdc.Reference.GetProperty.Answers.{answer_container-Grows, answer_device-Grows}
use libdsvdc.Reference.GetProperty.Container.{answer_container}
use libdsvdc.Reference.GetProperty.Device.{answer_device}
use libdsvdc.Reference.GetProperty.Growing.{Grows}
use libdsvdc.Reference.GetProperty.Reply.{Answering, answer_loop}
use libdsvdc.Reference.GetProperty.Responses.{answer_loop-Grown}
use libdsvdc.Reference.Site.{Site, Globals, strcasecmp_eq}
use libdsvdc.Send.Frame.{Reported-plentiful}
use libdsvdc.Send.Responding.{
  answer_property, Answered, answered, send_get_property_response-Answered,
}

module _ (env : Env) (site : Site) (g : Globals) (light : ℕ) where
  respond-Answered :
      {slots : Slots} {n : ℕ} (answering : Answering) (id : ℕ) (s : State)
      → ((name : Bytes) → Grows (answering name))
      → FormedSlots slots (suc n)
      → IsPlentiful s.mem
      → Ends
          (λ _ t. Answered env id 1 s t)
          (respond env site g light answering
            (some (query_of slots (suc n)))
            (some (answer_property id))
            s)
  unfolding get_num_properties blocks
  respond-Answered {slots} {n} answering id s grows ws h =
      heap-Ends
        (answer_loop answering (some (query_of slots (suc n))) (suc n) 0
          (some (answer_property id)))
        s _
        (answer_loop-Grown answering grows (suc n) slots 0 (answer_property id) s.mem ws
          (λ k. ap (slot_at slots) {x = k + 0} {y = k} (omega arith)) (omega arith)
          (empty (some id)) h)
        (elim [
          | some q ↦ λ m g'. elim g' [
            | grown_to w e held same more ↦
                let plenty : IsPlentiful m = λ k. ap (λ f. f k) same ∙ h k in
                Ends-bind (send_get_property_response-Answered env q id (record s { mem = m }) w e)
                  λ _ t a. elim a [
                    | answered p code wp handle locks calls freed report ↦ ends (
                        answered p code wp handle locks calls (omega (arith, held, freed))
                          (Reported-plentiful plenty h refl refl report))
                  ]
          ]
          | none ↦ λ m g'. elim g' [ ]
        ])

  -- Whether the connector answers for a dSUID.
  abbrev pub answers_for : Bytes → Bool
  answers_for dsuid = strcasecmp_eq site g.vdc_dsuid dsuid || strcasecmp_eq site g.dev_dsuid dsuid

  -- To a request with a well-formed array of at least one element (each array has as many elements
  -- as its count says, and all bytes are as long as they say), where memory suffices, `getprop_cb`
  -- ends. For the container's and the device's dSUID, in whatever case, it sends exactly one
  -- answer, or as much of it as the socket takes, with the request's id and the elements of a
  -- well-formed property, and all that it has allocated is freed, and the property for the answer
  -- too; the handle, the mutex and the calls
  -- of the application are as they were. For any other dSUID it changes nothing: there is no
  -- answer, and the property is not freed.
  pub getprop-Answered :
      {slots : Slots} {n : ℕ} (dsuid : Bytes) (id : ℕ) (s : State)
      → FormedSlots slots (suc n)
      → IsPlentiful s.mem
      → Ends
          (λ _ t. if answers_for dsuid then Answered env id 1 s t else (t ≡ s))
          (getprop env site g light dsuid
            (some (answer_property id))
            (some (query_of slots (suc n)))
            s)
  unfolding getprop
  getprop-Answered dsuid id s ws h = elim (Bool-cases (strcasecmp_eq site g.vdc_dsuid dsuid)) [
    | inl container ↦
        simp container
          (respond-Answered (answer_container site) id s (answer_container-Grows site) ws h)
    | inr other ↦ simp other (elim (Bool-cases (strcasecmp_eq site g.dev_dsuid dsuid)) [
      | inl device ↦ simp device (
          respond-Answered (answer_device site g light dsuid) id s
            (answer_device-Grows site g light dsuid) ws h)
      | inr unknown ↦ simp unknown (ends refl)
    ])
  ]
