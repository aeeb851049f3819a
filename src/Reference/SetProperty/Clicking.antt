-- ===== src/Reference/SetProperty/Clicking.antt =====
-- `send_button_click`: the tree that it pushes, and what it leaves behind.
use libdsvdc.Base.{ℕ, ◌≡◌, refl, ap, inl, true, false, none, some, codes, arith}
use libdsvdc.Codes.{Code}
use libdsvdc.Effects.Ends.{Ends, ends, Ends-bind, heap-bind}
use libdsvdc.Handle.{State, Env}
use libdsvdc.Memory.{Mem, ok, and_then-ok, spend, release, IsPlentiful}
use libdsvdc.Message.{Outgoing, vdc_send_push_property_type, vdc_send_push_property}
use libdsvdc.Property.{init_value, element, null, vector, Slots, entry, end, Property}
use libdsvdc.Property.Build.{put_last}
use libdsvdc.Property.Build.Plenty.{add_uint-Plenty, add_property-Plenty}
use libdsvdc.Property.Copy.Plenty.{property_new-Yields}
use libdsvdc.Property.Freed.{property_free-Frees}
use libdsvdc.Property.Packing.{packable-FormedSlots}
use libdsvdc.Property.Whole.{
  slot_blocks, field_blocks, WholeSlots, nil, cons, leaf, node, absent, present, no_bytes, blocks,
  formed,
}
use libdsvdc.Reference.SetProperty.{send_button_click}
use libdsvdc.Reference.SetProperty.Examine.{new_click}
use libdsvdc.Reference.Site.{Site, Globals}
use libdsvdc.Send.{push_property}
use libdsvdc.Send.Frame.{Reported-plentiful, Untouched, Reported, send_message-Sent}

-- The tree {buttonInputStates: {0: {clickType: click}}}.
abbrev pub click_slots : ℕ → Slots
click_slots click =
    entry
      (element (some (codes "clickType"))
        (some (record init_value { v_uint64 = click; has_v_uint64 = true })) 0 null)
      end

abbrev pub state_slots : ℕ → Slots
state_slots click = entry (element (some (codes "0")) none 1 (vector (click_slots click))) end

abbrev pub push_slots : ℕ → Slots
push_slots click =
    entry (element (some (codes "buttonInputStates")) none 1 (vector (state_slots click))) end

abbrev pub click_property : ℕ → Property
click_property click = record {
  message_id = none;
  properties = vector (push_slots click);
  n_properties = 1;
}

push_slots-Whole : (click : ℕ) → WholeSlots (push_slots click) 1
push_slots-Whole click =
    cons
      (node absent (
        cons
          (node absent
            (cons (leaf (present (record { bytes = no_bytes _; single = inl refl }))) nil))
          nil))
      nil

-- The memory after the three properties and the three additions.
abbrev clicked_mem : Mem → Mem
clicked_mem m = release (spend m 13) 2

new_click-Plenty :
    (click : ℕ) (m : Mem)
    → IsPlentiful m
    → new_click click m ≡ ok (some (click_property click)) (clicked_mem m)
unfolding new_click put_last
new_click-Plenty click m h = and_then-ok _ (property_new-Yields m h) (
    and_then-ok _ (property_new-Yields (spend m 1) h) (
      and_then-ok _ (property_new-Yields (spend (spend m 1) 1) h) (
        and_then-ok _
          (add_uint-Plenty _ (codes "clickType") (spend (spend (spend m 1) 1) 1) h click)
          (and_then-ok _ (add_property-Plenty _ _ (codes "0") _ h) (
            and_then-ok _ (add_property-Plenty _ _ (codes "buttonInputStates") _ h)
              (ap (ok (some (click_property click))) (ground arith)))))))

push_blocks : (click : ℕ) → blocks (vector (push_slots click)) ≡ 10
unfolding blocks slot_blocks field_blocks
push_blocks click = refl

-- The message of a click.
abbrev pub click_message : Globals → ℕ → Outgoing
click_message g click = record {
  type = vdc_send_push_property_type;
  has_message_id = false;
  message_id = 0;
  body = vdc_send_push_property (some g.dev_dsuid) 1 (vector (push_slots click));
}

-- A message was sent, or the sending failed; all else is as it was, the blocks included.
pub data Pushed (env : Env) (g : Globals) (click : ℕ) (s t : State) : Type 0 where
  pushed :
      (code : Code)
      → Untouched s t
      → Reported (env.pack (click_message g click)) s t code
      → Pushed env g click s t

pub send_button_click-Pushed :
    (env : Env) (site : Site) (g : Globals) (click : ℕ) (s : State)
    → IsPlentiful s.mem
    → Ends (λ _ t. Pushed env g click s t) (send_button_click env site g click s)
unfolding send_button_click push_property
send_button_click-Pushed env site g click s plenty =
    heap-bind (new_click click) s _ (new_click-Plenty click s.mem plenty) (
      simp (packable-FormedSlots (formed (push_slots-Whole click))) (
        Ends-bind
          (send_message-Sent env (click_message g click) (record s { mem = clicked_mem s.mem }))
          λ code t (u, r).
            rw (property_free-Frees none (push_slots-Whole click) t.mem, push_blocks click)
              (ends (
                pushed code
                  (record {
                    handle = u.handle;
                    locks = u.locks;
                    blocks = omega (arith, u.blocks);
                    grown = omega (arith, u.grown);
                    grants = u.grants;
                    calls = u.calls;
                    closed = u.closed;
                    reads = u.reads;
                    ticks = u.ticks;
                    clock = u.clock;
                  })
                  (Reported-plentiful plenty plenty refl refl r)))))
