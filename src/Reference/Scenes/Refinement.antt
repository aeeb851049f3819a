-- ===== src/Reference/Scenes/Refinement.antt =====
-- The scenes of the reference connector refine a table of values: the abstract view forgets the
-- database, the keys, the packing and the memory.
use libdsvdc.Base.{
  ℕ, zero, suc, ◌≡◌, refl, true, false, Bool-cases, Option-cases, inl, inr, Option, some, List, [],
  ◌∷◌, Bytes, ◌==◌, suc-==-zero, arith,
}
use libdsvdc.Database.{Gdbm, Codec}
use libdsvdc.Database.Dictionary.{IsReliable}
use libdsvdc.Memory.{Mem, Cmd, pure, ◌>>=◌, Ends, ends, Ends-bind, Ends-map, IsPlentiful, Balanced}
use libdsvdc.Reference.Scenes.{
  Doubles, Scenes, adjusted, call_scene, save_scene, set_channel, output_channel_value,
}
use libdsvdc.Reference.Scenes.Key.{IsNatural}
use libdsvdc.Reference.Scenes.Table.{
  Room, Notification, called, saved_as, channel_set, meaning, meanings, light_array, Announces,
  print_dsuids-ok, IsPlain, ArePlain,
}
use libdsvdc.Reference.Scenes.Recall.{Agrees, Received, recall-Received, save_scene-Received}

module _ (gdbm : Gdbm) (codec : Codec) (doubles : Doubles) where
  -- The callbacks, one notification after another.
  abbrev pub receive : Notification → Scenes gdbm → Cmd (Scenes gdbm)
  receive (called dsuids n scene) = call_scene gdbm doubles codec dsuids n scene
  receive (saved_as dsuids n scene) = save_scene gdbm doubles codec dsuids n scene
  receive (channel_set dsuids n channel value) = output_channel_value gdbm dsuids n channel value

  abbrev pub receive_all : List Notification → Scenes gdbm → Cmd (Scenes gdbm)
  receive_all [] st = pure st
  receive_all (c ∷ cs) st = do st' ← receive c st; receive_all cs st'

  module _ (reliable : IsReliable gdbm)
      (faithful : (v : ℕ)
        → codec.unpack (codec.pack 1 (light_array v)) ≡ some (1, light_array v)) where
    call_scene-Received :
        (dsuids : Option (List Bytes)) (k : ℕ) (scene : ℕ) (st : Scenes gdbm) (r : Room) (m : Mem)
        → Agrees gdbm codec st r
        → IsNatural scene
        → Announces dsuids k
        → IsPlentiful m
        → Ends
            (Received gdbm codec (meaning doubles (called dsuids k scene) r) m)
            (call_scene gdbm doubles codec dsuids k scene st m)
    unfolding call_scene
    call_scene-Received dsuids k scene st r m w h spoken plenty =
        rw (print_dsuids-ok dsuids k m spoken, w.light)
          (elim (Option-cases (adjusted doubles scene r.light)) [
            | inl other ↦
                rw (other, meaning)
                  (recall-Received gdbm codec doubles reliable faithful scene st r m w h plenty)
            | inr (light, e) ↦
                rw (e, meaning)
                  (ends (
                    record {
                      light = refl;
                      natural = w.natural;
                      db = w.db;
                      open_db = w.open_db;
                      holds = w.holds;
                    },
                    refl,
                    omega arith,
                  ))
          ])

    set_channel-same :
        (k channel value : ℕ) (st : Scenes gdbm)
        → (channel == 0) ≡ false
        → set_channel gdbm k channel value st ≡ st
    set_channel-same zero channel value st h = refl
    set_channel-same (suc k) channel value st h = rw h (set_channel-same k channel value st h)

    set_channel-again :
        (k channel value : ℕ) (st : Scenes gdbm)
        → (channel == 0) ≡ true
        → set_channel gdbm k channel value (record st { light = value })
          ≡ record st { light = value }
    set_channel-again zero channel value st h = refl
    set_channel-again (suc k) channel value st h = rw h (set_channel-again k channel value st h)

    output_channel_value-Received :
        (dsuids : Option (List Bytes)) (k channel value : ℕ) (st : Scenes gdbm) (r : Room) (m : Mem)
        → Agrees gdbm codec st r
        → Announces dsuids k
        → Ends
            (Received gdbm codec (meaning doubles (channel_set dsuids k channel value) r) m)
            (output_channel_value gdbm dsuids k channel value st m)
    unfolding output_channel_value
    output_channel_value-Received dsuids zero channel value st r m w spoken =
        ends (w, refl, omega arith)
    output_channel_value-Received dsuids (suc k) channel value st r m w spoken =
        rw (print_dsuids-ok dsuids (suc k) m spoken, suc-==-zero k)
          (elim (Bool-cases (channel == 0)) [
            | inl light ↦
                rw (light, set_channel-again k channel value st light)
                  (ends (
                    record {
                      light = refl;
                      natural = w.natural;
                      db = w.db;
                      open_db = w.open_db;
                      holds = w.holds;
                    },
                    refl,
                    omega arith,
                  ))
            | inr other ↦
                rw (set_channel-same (suc k) channel value st other, other)
                  (ends (w, refl, omega arith))
          ])

    receive-Received :
        (c : Notification) (st : Scenes gdbm) (r : Room) (m : Mem)
        → Agrees gdbm codec st r
        → IsPlain c
        → IsPlentiful m
        → Ends (Received gdbm codec (meaning doubles c r) m) (receive c st m)
    receive-Received (called dsuids k scene) st r m w (h, spoken) plenty =
        call_scene-Received dsuids k scene st r m w h spoken plenty
    receive-Received (saved_as dsuids k scene) st r m w (h, spoken) plenty =
        save_scene-Received gdbm codec doubles reliable faithful dsuids k scene st r m w h spoken
          plenty
    receive-Received (channel_set dsuids k channel value) st r m w spoken plenty =
        output_channel_value-Received dsuids k channel value st r m w spoken

    -- Where GNU dbm stores what it is given and fetches it, unpacking gives the packed value of
    -- the light back, memory suffices, the connector's database represents a table of scenes, the
    -- scenes are not negative and dSUIDs are there where their number is not 0, the connector's
    -- callbacks for called and saved scenes and for channel values end, whatever their order,
    -- with the light and the database as the table has them: a called scene sets the light to the
    -- value last saved for it, and leaves it where nothing was saved, the scenes 11 to 14 adjust
    -- it, scenes above 128 change nothing, and a value for channel 0 is taken over. No block is
    -- left behind.
    pub receive_all-Refines :
        (cs : List Notification) (st : Scenes gdbm) (r : Room) (m : Mem)
        → Agrees gdbm codec st r
        → ArePlain cs
        → IsPlentiful m
        → Ends
            (λ st' n. Agrees gdbm codec st' (meanings doubles cs r) × Balanced m n)
            (receive_all cs st m)
    receive_all-Refines [] st r m w p plenty = ends (w, omega arith)
    receive_all-Refines (c ∷ cs) st r m w (p, ps) plenty =
        Ends-bind (receive-Received c st r m w p plenty) λ st' n (w', g, b).
          Ends-map (receive_all-Refines cs st' (meaning doubles c r) n w' ps (rw g plenty))
            λ _ q (w'', b'). (w'', omega (arith, b, b'))
