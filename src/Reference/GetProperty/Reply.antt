-- ===== src/Reference/GetProperty/Reply.antt =====
-- examples/vdc-reference.c: what the two loops of `getprop_cb` share. The result of an adder is
-- not looked at.
use libdsvdc.Base.{ℕ, zero, suc, ◌+◌, Bool, Option, none, some, List, [], ◌∷◌, Bytes}
use libdsvdc.Codes.{done, error}
use libdsvdc.Memory.{Cmd, pure, ◌>>=◌, ◌>>◌, free}
use libdsvdc.Property.{Property}
use libdsvdc.Property.Access.{get_name}
use libdsvdc.Property.Build.{add_uint, add_int, add_bool, add_double, add_string, add_property}
use libdsvdc.Property.Copy.{property_new}
use libdsvdc.Property.Free.{property_free}

-- The part of the loop that depends on the name.
abbrev pub Answering : Type 0
Answering = Bytes → Option Property → Cmd (Option Property)

module _ (key : Bytes) where
  abbrev pub set_uint : ℕ → Option Property → Cmd (Option Property)
  set_uint x p = do (_, p') ← add_uint p (some key) x; pure p'

  abbrev pub set_int : ℕ → Option Property → Cmd (Option Property)
  set_int x p = do (_, p') ← add_int p (some key) x; pure p'

  abbrev pub set_bool : Bool → Option Property → Cmd (Option Property)
  set_bool x p = do (_, p') ← add_bool p (some key) x; pure p'

  abbrev pub set_double : ℕ → Option Property → Cmd (Option Property)
  set_double x p = do (_, p') ← add_double p (some key) x; pure p'

  abbrev pub set_string : Bytes → Option Property → Cmd (Option Property)
  set_string s p = do (_, p') ← add_string p (some key) (some s); pure p'

  abbrev pub set_property : Option Property → Option Property → Cmd (Option Property)
  set_property source p = do (_, p', _) ← add_property p (some key) source; pure p'

-- Additions to one property, one after another.
abbrev pub all_of :
    List (Option Property → Cmd (Option Property)) → Option Property → Cmd (Option Property)
all_of [] p = pure p
all_of (add ∷ adds) p = do p' ← add p; all_of adds p'

-- A reply of one level: a new property is filled, and becomes an element of the answer.
abbrev pub with_reply :
    Bytes
    → List (Option Property → Cmd (Option Property))
    → Option Property
    → Option Property
    → Cmd (Option Property)
with_reply name adds property none = pure property
with_reply name adds property (some reply) = do
  reply' ← all_of adds (some reply)
  set_property name reply' property

unfoldable pub reply_with : List (Option Property → Cmd (Option Property)) → Answering
reply_with adds name property = do reply ← property_new; with_reply name adds property reply

-- A reply of two levels: `inner` is filled, then becomes an element of `reply` under a key, and
-- then more is added to `reply`.
abbrev pub with_inner :
    Bytes
    → Bytes
    → List (Option Property → Cmd (Option Property))
    → List (Option Property → Cmd (Option Property))
    → Option Property
    → Property
    → Option Property
    → Cmd (Option Property)
with_inner name key inner_adds adds property reply none = do
  property_free (some reply)
  pure property
with_inner name key inner_adds adds property reply (some inner) = do
  inner' ← all_of inner_adds (some inner)
  reply' ← set_property key inner' (some reply)
  reply'' ← all_of adds reply'
  set_property name reply'' property

abbrev pub with_outer :
    Bytes
    → Bytes
    → List (Option Property → Cmd (Option Property))
    → List (Option Property → Cmd (Option Property))
    → Option Property
    → Option Property
    → Cmd (Option Property)
with_outer name key inner_adds adds property none = pure property
with_outer name key inner_adds adds property (some reply) = do
  inner ← property_new
  with_inner name key inner_adds adds property reply inner

unfoldable pub reply_nested :
    Bytes
    → List (Option Property → Cmd (Option Property))
    → List (Option Property → Cmd (Option Property))
    → Answering
reply_nested key inner_adds adds name property = do
  reply ← property_new
  with_outer name key inner_adds adds property reply

-- The loop from element `i` on, `n` of them to go. A name that cannot be read, or a missing one,
-- ends it.
unfoldable pub answer_loop :
    Answering → Option Property → ℕ → ℕ → Option Property → Cmd (Option Property)
answer_loop answering query zero i property = pure property
answer_loop answering query (suc n) i property = do
  name ← get_name query i
  elim name [
    | error code ↦ pure property
    | done none ↦ pure property
    | done (some name') ↦ (do
      property' ← answering name' property
      free
      answer_loop answering query n (i + 1) property')
  ]
