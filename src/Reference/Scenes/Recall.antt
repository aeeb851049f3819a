-- ===== src/Reference/Scenes/Recall.antt =====
-- Saving the light's value under a scene, and recalling it.
use libdsvdc.Base.{
  ℕ, ◌≡◌, refl, sym, ap, ◌∙◌, true, Bool-cases, inl, inr, Option, none, some, List, ◌∷◌, Bytes,
  if◌then◌else◌, codes, arith,
}
use mathlib.Core.Path.{subst}
use libdsvdc.Codes.{dsvdc_ok, done}
use libdsvdc.Database.{Gdbm, Codec, Database}
use libdsvdc.Database.Dictionary.{
  full_array, IsStorable, property_of, answer_to, cost_of, IsReliable,
}
use libdsvdc.Database.Refinement.{Represents, load-Answers, save-Represents}
use libdsvdc.Memory.{Mem, ok, Ends, ends, Ends-bind, IsPlentiful, Holding, Balanced, spend}
use libdsvdc.Property.{init_value, null, entry, end, Property}
use libdsvdc.Property.Access.{get_double, value_type_eq, type_of_value, slot_at}
use libdsvdc.Property.Access.Typed.{get_double-at}
use libdsvdc.Property.Build.{add_double, put_last}
use libdsvdc.Property.Build.Plenty.{add_double-Plenty}
use libdsvdc.Property.Copy.Plenty.{property_new-Yields}
use libdsvdc.Property.Freed.{property_free-Frees}
use libdsvdc.Property.Whole.{blocks}
use libdsvdc.Reference.Scenes.{
  Doubles, Scenes, is_unknown, recall, save_light, save_scene, use_loaded,
}
use libdsvdc.Reference.Scenes.Key.{scene_key, IsNatural}
use libdsvdc.Reference.Scenes.Table.{
  Room, value_of_scene, saved_as, recalled, meaning, light_element, light_array, light_array-Whole,
  dictionary, AreNatural, Announces, print_dsuids-ok, found_value, look_up-dictionary,
}

-- The property that `savescene_cb` makes, where memory suffices.
abbrev light_property : ℕ → Property
light_property v = property_of (1, light_array v)

add_double-light :
    (v : ℕ) (m : Mem)
    → IsPlentiful m
    → add_double (some (property_of (0, null))) (some (codes "value")) v m
      ≡ ok (dsvdc_ok, some (light_property v)) (spend m 4)
unfolding put_last
add_double-light v m h = add_double-Plenty (property_of (0, null)) (codes "value") m h v

get_double-light : (v : ℕ) (m : Mem) → get_double (some (light_property v)) 0 m ≡ ok (done v) m
unfolding value_type_eq type_of_value slot_at
get_double-light v m =
    get_double-at (light_property v) (entry (light_element v) end) 0 (some (codes "value"))
      (record init_value { v_double = v; has_v_double = true }) 0 null m refl refl refl

light_blocks : (v : ℕ) → blocks (light_array v) ≡ 4
unfolding blocks
light_blocks v = refl

module _ (gdbm : Gdbm) (codec : Codec) where
  -- The light is the table's, and the open database holds the table.
  pub record Agrees (st : Scenes gdbm) (r : Room) : Type 0 where
    pub light : st.light ≡ r.light
    pub natural : AreNatural r.saved
    pub db : Database gdbm
    pub open_db : st.db ≡ some db
    pub holds : Represents gdbm codec db (dictionary r.saved)

  -- The table after a notification, with no block more.
  abbrev pub Received : Room → Mem → Scenes gdbm → Mem → Type 0
  Received r m st n = Agrees st r × (n.grants ≡ m.grants) × Balanced m n

  module _ (doubles : Doubles) (reliable : IsReliable gdbm)
      (faithful : (v : ℕ)
        → codec.unpack (codec.pack 1 (light_array v)) ≡ some (1, light_array v)) where
    -- What is done with the answer of the database.
    use_loaded-Received :
        (o : Option ℕ) (st : Scenes gdbm) (r : Room) (m n : Mem)
        → Agrees st r
        → n.grants ≡ m.grants
        → Holding m n (cost_of (found_value o))
        → Ends (Received (recalled r o) m) (use_loaded gdbm st (answer_to (found_value o)) n)
    use_loaded-Received none st r m n w g h = ends (w, g, omega arith)
    use_loaded-Received (some v) st r m n w g h =
        rw (get_double-light v n, property_free-Frees none (light_array-Whole v) n)
          (ends (
            record {
              light = refl;
              natural = w.natural;
              db = w.db;
              open_db = w.open_db;
              holds = w.holds;
            },
            g,
            omega (arith, light_blocks v),
          ))

    pub recall-Received :
        (scene : ℕ) (st : Scenes gdbm) (r : Room) (m : Mem)
        → Agrees st r
        → IsNatural scene
        → IsPlentiful m
        → Ends
            (Received (if is_unknown scene then r else recalled r (value_of_scene r.saved scene)) m)
            (recall gdbm doubles codec scene st m)
    unfolding recall
    recall-Received scene st r m w h plenty = elim (Bool-cases (is_unknown scene)) [
      | inl unknown ↦ simp unknown (ends (w, refl, omega arith))
      | inr known ↦
          simp (known, w.open_db)
            (Ends-bind
              (load-Answers gdbm codec reliable w.db (dictionary r.saved) (scene_key scene) m
                w.holds plenty)
              λ got n (e, g, hold).
                subst
                  (λ a.
                    Ends (Received (recalled r (value_of_scene r.saved scene)) m)
                      (use_loaded gdbm st a n))
                  (sym (e ∙ ap answer_to (look_up-dictionary r.saved scene w.natural h)))
                  (use_loaded-Received (value_of_scene r.saved scene) st r m n w g
                    (rw (look_up-dictionary r.saved scene w.natural h) at hold)))
    ]

    light-IsStorable : (v : ℕ) → IsStorable codec 1 (light_array v)
    light-IsStorable v = record { whole = full_array (light_array-Whole v); faithful = faithful v }

    save_light-Received :
        (scene : ℕ) (st : Scenes gdbm) (r : Room) (m n : Mem)
        → Agrees st r
        → IsNatural scene
        → IsPlentiful n
        → n.grants ≡ m.grants
        → Holding m n 1
        → Ends
            (Received (record r { saved = (scene, r.light) ∷ r.saved }) m)
            (save_light gdbm codec (scene_key scene) st (some (property_of (0, null))) n)
    save_light-Received scene st r m n w h plenty g hold =
        rw (add_double-light st.light n plenty, w.open_db)
          (Ends-bind
            (save-Represents gdbm codec reliable w.db (dictionary r.saved) (scene_key scene)
              (light_property st.light) (spend n 4) w.holds (light-IsStorable st.light) plenty)
            λ (code, o) q (e, (db', f, holds), g', hold').
              rw (property_free-Frees none (light_array-Whole st.light) q) (
                ends (
                  record {
                    light = w.light;
                    natural = (h, w.natural);
                    db = db';
                    open_db = f;
                    holds =
                        subst
                          (λ v.
                            Represents gdbm codec db'
                              ((scene_key scene, 1, light_array v) ∷ dictionary r.saved))
                          w.light holds;
                  },
                  g' ∙ g,
                  omega (arith, light_blocks st.light),
                )))

    pub save_scene-Received :
        (dsuids : Option (List Bytes)) (k : ℕ) (scene : ℕ) (st : Scenes gdbm) (r : Room) (m : Mem)
        → Agrees st r
        → IsNatural scene
        → Announces dsuids k
        → IsPlentiful m
        → Ends
            (Received (meaning doubles (saved_as dsuids k scene) r) m)
            (save_scene gdbm doubles codec dsuids k scene st m)
    unfolding save_scene
    save_scene-Received dsuids k scene st r m w h spoken plenty =
        rw (print_dsuids-ok dsuids k m spoken) (elim (Bool-cases (is_unknown scene)) [
          | inl unknown ↦ simp unknown (ends (w, refl, omega arith))
          | inr known ↦
              simp (known, property_new-Yields m plenty)
                (save_light-Received scene st r m (spend m 1) w h plenty refl (omega arith))
        ])
