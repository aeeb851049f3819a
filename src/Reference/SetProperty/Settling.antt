-- ===== src/Reference/SetProperty/Settling.antt =====
-- `setprop_cb`: a request ends with one answer, and makes at most one click.
use libdsvdc.Base.{
  ℕ, suc, ◌+◌, ◌≡◌, refl, ap, true, false, inl, inr, Bool-cases, none, some, Bytes, bytes_eq, leb,
  if◌then◌else◌, codes, arith,
}
use mathlib.Core.Path.{subst}
use libdsvdc.Codes.{Code}
use libdsvdc.Effects.{M, ◌>>=◌, skip}
use libdsvdc.Effects.Ends.{Ends, ends, Ends-bind, Ends-map, heap-bind}
use libdsvdc.Handle.{State, Env}
use libdsvdc.Memory.{Mem, pure, spend, release, free, IsPlentiful}
use libdsvdc.Message.{ResultCode}
use libdsvdc.Property.{Element, element, Slots, entry}
use libdsvdc.Property.Access.{get_num_properties, slot_at}
use libdsvdc.Property.Copy.Plenty.{query_of}
use libdsvdc.Property.Whole.{FormedSlots, nil, cons}
use libdsvdc.Reference.SetProperty.{settle, set_loop, setprop}
use libdsvdc.Reference.SetProperty.Clicking.{click_message, pushed, send_button_click-Pushed}
use libdsvdc.Reference.SetProperty.Examined.{
  Verdict, unhandled, ill_typed, unknown, clicked, judge, judge_value, settled, examine-nameless,
  examine-named,
}
use libdsvdc.Reference.SetProperty.Examine.{examine}
use libdsvdc.Reference.Site.{Site, Globals, strcasecmp_eq}
use libdsvdc.Send.{send_set_property_response}
use libdsvdc.Send.Frame.{Untouched, Untouched-mem, Untouched-trans, Reported, Reported-plentiful}
use libdsvdc.Send.Responding.{
  code_number, Replied, answer_property, send_set_property_response-Replied,
}

-- The code of the answer.
abbrev pub code_of : Verdict → ResultCode
code_of unhandled = ResultCode.err_not_implemented
code_of ill_typed = ResultCode.err_invalid_value_type
code_of unknown = ResultCode.err_not_found
code_of (clicked click) = ResultCode.err_ok

module _ (env : Env) (site : Site) (g : Globals) where
  -- One message for the click was sent, or as much of it as the socket took; without a click nothing
  -- was written.
  abbrev pub Wired : Verdict → State → State → Type 0
  Wired (clicked click) s t = (code : Code) × Reported (env.pack (click_message g click)) s t code
  Wired _ s t = (t.wire ≡ s.wire) × (t.writes ≡ s.writes)

  abbrev Looped : Verdict → State → ℕ → State → Type 0
  Looped v s code t = (code ≡ code_number (code_of v)) × Untouched s t × Wired v s t

  -- From a state that differs in memory only.
  Wired-elsewhere :
      (v : Verdict) (s t : State) (m : Mem)
      → IsPlentiful m
      → IsPlentiful s.mem
      → Wired v (record s { mem = m }) t
      → Wired v s t
  Wired-elsewhere unhandled s t m h h' w = w
  Wired-elsewhere ill_typed s t m h h' w = w
  Wired-elsewhere unknown s t m h h' w = w
  Wired-elsewhere (clicked click) s t m h h' (code, report) =
      (code, Reported-plentiful h h' refl refl report)

  -- The block of the name is freed after the value was judged.
  judged :
      (v : Verdict) (next : M ℕ) (s : State)
      → IsPlentiful s.mem
      → Ends (Looped v s) (settle env site g next (settled v) (record s { mem = spend s.mem 1 }))
  unfolding free
  judged unhandled next s plenty =
      ends (refl, Untouched-mem s (omega arith) (omega arith) refl, (refl, refl))
  judged ill_typed next s plenty =
      ends (refl, Untouched-mem s (omega arith) (omega arith) refl, (refl, refl))
  judged unknown next s plenty =
      ends (refl, Untouched-mem s (omega arith) (omega arith) refl, (refl, refl))
  judged (clicked click) next s plenty =
      Ends-bind
        (send_button_click-Pushed env site g click (record s { mem = spend s.mem 1 }) plenty)
        λ _ t p. elim p [
          | pushed code u report ↦ ends (
            refl,
            record {
              handle = u.handle;
              locks = u.locks;
              blocks = omega (arith, u.blocks);
              grown = omega (arith, u.grown);
              grants = u.grants;
              calls = u.calls;
              closed = u.closed;
              reads = u.reads;
              ticks = u.ticks;
              clock = u.clock;
            },
            (code, Reported-plentiful plenty plenty refl refl report),
          )
        ]

  -- The turn for an element, where the rest of the loop is known.
  turn-Looped :
      (total : ℕ) (slots rest : Slots) (e : Element) (n i : ℕ) (s : State)
      → slot_at slots i ≡ pure (some e)
      → leb total i ≡ false
      → IsPlentiful s.mem
      → ((t : State)
          → IsPlentiful t.mem
          → Ends
              (Looped (judge rest) t)
              (set_loop env site g n (i + 1) (some (query_of slots total)) t))
      → Ends
          (Looped (judge (entry e rest)) s)
          (set_loop env site g (suc n) i (some (query_of slots total)) s)
  unfolding set_loop judge free
  turn-Looped total slots rest (element none val m els) n i s at inside plenty next =
      heap-bind (examine (some (query_of slots total)) i) s
        (settle env site g (set_loop env site g n (i + 1) (some (query_of slots total))))
        (examine-nameless (query_of slots total) slots i m els inside refl val s.mem at)
        (ends (refl, Untouched-mem s refl (omega arith) refl, (refl, refl)))
  turn-Looped total slots rest (element (some name) val m els) n i s at inside plenty next =
      heap-bind (examine (some (query_of slots total)) i) s
        (settle env site g (set_loop env site g n (i + 1) (some (query_of slots total))))
        (examine-named (query_of slots total) slots i m els inside refl name val s.mem at plenty)
        (elim (Bool-cases (bytes_eq name (codes "x-libdsvdc-actionclick"))) [
          | inl action ↦ simp action (
              judged (judge_value val) (set_loop env site g n (i + 1) (some (query_of slots total)))
                s plenty)
          | inr other ↦ simp other (
              Ends-map (next (record s { mem = release (spend s.mem 1) 1 }) plenty)
                λ code t (c, u, w). (
                  c,
                  Untouched-trans (Untouched-mem s (omega arith) (omega arith) refl) u,
                  Wired-elsewhere (judge rest) s t _ plenty plenty w,
                ))
        ])

  set_loop-Looped :
      (total : ℕ) (slots : Slots) {rest : Slots} {n : ℕ} (i : ℕ) (s : State)
      → FormedSlots rest n
      → ((k : ℕ) → slot_at slots (k + i) ≡ slot_at rest k)
      → n + i ≡ total
      → IsPlentiful s.mem
      → Ends (Looped (judge rest) s) (set_loop env site g n i (some (query_of slots total)) s)
  unfolding set_loop judge slot_at
  set_loop-Looped total slots i s nil at count plenty =
      ends (refl, Untouched-mem s refl (omega arith) refl, (refl, refl))
  set_loop-Looped total slots i s (cons {e} {slots = rest} {n} w ws) at count plenty =
      turn-Looped total slots rest e n i s
        (subst (λ j. slot_at slots j ≡ pure (some e)) {x = 0 + i} {y = i} (omega arith) (at 0))
        (ground (arith, count)) plenty
        λ t more.
          set_loop-Looped total slots (i + 1) t ws
            (λ k.
              subst (λ j. slot_at slots j ≡ slot_at rest k) {x = suc k + i} {y = k + (i + 1)}
                (omega arith) (at (suc k)))
            (omega (arith, count)) more

  -- The verdict on a request: only the device is asked.
  abbrev pub verdict : Bytes → Slots → Verdict
  verdict dsuid slots = if strcasecmp_eq site g.dev_dsuid dsuid then judge slots else unknown

  -- In a state between, a click was sent or not; then the answer.
  pub data Handled (v : Verdict) (id : ℕ) (s t : State) : Type 0 where
    handled :
        (q : State)
        → Untouched s q
        → Wired v s q
        → Replied env (code_of v) id q t
        → Handled v id s t

  replied :
      (v : Verdict) (id : ℕ) (s q : State) (code : ℕ)
      → Looped v s code q
      → Ends
          (λ _ t. Handled v id s t)
          ((send_set_property_response env true (some (answer_property id)) code >>= λ _. skip) q)
  replied v id s q code (c, u, w) = rw c (
      Ends-bind (send_set_property_response-Replied env (code_of v) id q)
        λ _ t r. ends (handled q u w r))

  -- To a request with a well-formed array of at least one element (each array has as many elements
  -- as its count says, and all bytes are as long as they say), where memory suffices, `setprop_cb`
  -- ends with exactly one answer, under the request's id, or as much of it as the socket took, and
  -- gives back the block of the property for the answer and no other. For a dSUID that is not the device's the answer is that nothing was found. Else
  -- the first element without a name or with the name of the click action decides: a value of
  -- that action that is an unsigned number up to 14, or 255, is pushed as one click before the
  -- answer that all is well; any other value is answered as ill-typed, and where no element has
  -- the name, the answer is that this is not implemented. Without a click nothing else is sent,
  -- and the handle, the mutex and the calls of the application are as they were.
  pub setprop-Handled :
      {slots : Slots} {n : ℕ} (dsuid : Bytes) (id : ℕ) (s : State)
      → FormedSlots slots (suc n)
      → IsPlentiful s.mem
      → Ends
          (λ _ t. Handled (verdict dsuid slots) id s t)
          (setprop env site g dsuid (some (answer_property id)) (some (query_of slots (suc n))) s)
  unfolding setprop get_num_properties
  setprop-Handled {slots} {n} dsuid id s ws plenty =
      elim (Bool-cases (strcasecmp_eq site g.dev_dsuid dsuid)) [
        | inl device ↦ simp device (
            Ends-bind
              (set_loop-Looped (suc n) slots 0 s ws
                (λ k. ap (slot_at slots) {x = k + 0} {y = k} (omega arith)) (omega arith) plenty)
              (λ code q h. replied (judge slots) id s q code h))
        | inr other ↦ simp other (
            replied unknown id s s 11 (refl, Untouched-mem s refl (omega arith) refl, (refl, refl)))
      ]
