-- ===== src/Reference/Examples.antt =====
-- The theorems on the reference device connector at concrete dSUIDs.
use libdsvdc.Base.{
  some, ℕ, ◌-◌, ◌≡◌, refl, true, ltb, ◌&&◌, none, ◌++◌, Bytes, arith, codes, replicate,
  if◌then◌else◌,
}
use libdsvdc.Effects.Ends.{Ends}
use libdsvdc.Reference.Dsuid.{dsuid_compare, dsuid_compare-overrun}
use libdsvdc.Reference.GetProperty.{getprop}
use libdsvdc.Reference.GetProperty.Requests.{answers_for, getprop-Answered}
use libdsvdc.Reference.Session.{new_session}
use libdsvdc.Reference.Session.Opening.{Opened, new_session-Opened}
use libdsvdc.Property.{init_value, element, null, Slots, entry, end}
use libdsvdc.Property.Access.{type_of_value, value_type_eq}
use libdsvdc.Property.Copy.Plenty.{query_of}
use libdsvdc.Property.Whole.{FormedSlots, nil, cons, leaf, present, absent, no_bytes}
use libdsvdc.Reference.SetProperty.{setprop}
use libdsvdc.Reference.SetProperty.Examined.{judge, clicked}
use libdsvdc.Reference.SetProperty.Settling.{Handled, verdict, setprop-Handled}
use libdsvdc.Send.Responding.{answer_property, Answered}
use libdsvdc.Reference.Site.{Site, Globals}
use libdsvdc.Samples.{running, world}

-- `toupper` of the C locale.
abbrev upper : ℕ → ℕ
upper c = if ltb 96 c && ltb c 123 then c - 32 else c

abbrev site : Site
site = record {
  tolower = λ c. c;
  toupper = upper;
  version = codes "0.9.0";
  socket = true;
  interfaces = none;
}

-- A dSUID in lower case as it is given, and in upper case as it comes in.
abbrev dev_dsuid : Bytes
dev_dsuid = replicate 32 48 ++ codes "ab"

abbrev asked_dsuid : Bytes
asked_dsuid = replicate 32 48 ++ codes "AB"

abbrev globals : Globals
globals = record { dev_dsuid = dev_dsuid; vdc_dsuid = replicate 34 49; lib_dsuid = replicate 34 50 }

dsuid_compare-overrun_example : dsuid_compare upper (codes "AB") (codes "ab") ≡ none
dsuid_compare-overrun_example = dsuid_compare-overrun upper (codes "ab") refl (omega arith)

new_session-Opened_example :
    Ends
      (λ _ t. (t.locks ≡ running.locks) × Opened world globals running t)
      (new_session world site globals running)
new_session-Opened_example = new_session-Opened world site globals running

-- A request for a triple click.
abbrev click_request : Slots
click_request =
    entry
      (element (some (codes "x-libdsvdc-actionclick"))
        (some (record init_value { v_uint64 = 2; has_v_uint64 = true })) 0 null)
      end

click_request-Formed : FormedSlots click_request 1
click_request-Formed = cons (leaf (present (record { bytes = no_bytes _ }))) nil

asks_for_a_click : judge click_request ≡ clicked 2
unfolding judge type_of_value value_type_eq
asks_for_a_click = refl

setprop-Handled_example :
    Ends
      (λ _ t.
        Handled world site globals (verdict world site globals dev_dsuid click_request) 7 running t)
      (setprop world site globals dev_dsuid
        (some (answer_property 7))
        (some (query_of click_request 1))
        running)
setprop-Handled_example =
    setprop-Handled world site globals dev_dsuid 7 running click_request-Formed (λ k. refl)

-- A request for the device's icon, where the device is asked in lower case.
abbrev icon_request : Slots
icon_request = entry (element (some (codes "deviceIcon16")) none 0 null) end

icon_request-Formed : FormedSlots icon_request 1
icon_request-Formed = cons (leaf absent) nil

getprop-Answered_example :
    Ends
      (λ _ t.
        if answers_for world site globals 0 dev_dsuid
        then Answered world 7 1 running t
        else (t ≡ running))
      (getprop world site globals 0 dev_dsuid
        (some (answer_property 7))
        (some (query_of icon_request 1))
        running)
getprop-Answered_example =
    getprop-Answered world site globals 0 dev_dsuid 7 running icon_request-Formed (λ k. refl)
