-- ===== src/Discovery/Events.antt =====
-- Any sequence of callbacks keeps discovery up.
use libdsvdc.Base.{ℕ, ◌≡◌, false, List, [], ◌∷◌, arith}
use libdsvdc.Discovery.Callbacks.{
  client_callback, entry_group_callback, on_group_state, handle_event, handle_events, handle_states,
  reset_group,
}
use libdsvdc.Discovery.World.{
  Pointer, null, freed, live, ClientState, client_running, client_failure, client_collision,
  client_registering, client_connecting, GroupState, group_collision, group_failure, Event,
  client_event, group_event, Daemon, Announcer, Ends, ends, Ends-bind, Ends-map,
}
use libdsvdc.Discovery.Up.{
  is_freed, IsUp, Kept, Kept-trans, Kept-refl, IsSettled, Enough, quit-Kept, rename-Kept,
}
use libdsvdc.Discovery.Services.{create_services-Kept}

module _ (daemon : Daemon) (n : ℕ) (settles : IsSettled daemon n) where
  reset_group-Kept :
      (p : Pointer (Unit {0})) (w : Announcer)
      → is_freed p ≡ false
      → IsUp w
      → Ends (λ _ v. Kept w v) (reset_group p w)
  reset_group-Kept null w safe u = ends (Kept-refl u)
  reset_group-Kept freed w safe u = absurd cc
  reset_group-Kept (live _) w safe u = ends (Kept-refl u)

  client_callback-Kept :
      (fuel : ℕ) (state : ClientState) (w : Announcer)
      → Enough n fuel w.asked
      → IsUp w
      → Ends (λ _ v. Kept w v) (client_callback daemon fuel state w)
  client_callback-Kept fuel client_running w e u = create_services-Kept daemon n settles fuel w e u
  client_callback-Kept fuel client_failure w e u = quit-Kept w u
  client_callback-Kept fuel client_collision w e u = reset_group-Kept w.avahi_group w u.group u
  client_callback-Kept fuel client_registering w e u = reset_group-Kept w.avahi_group w u.group u
  client_callback-Kept fuel client_connecting w e u = ends (Kept-refl u)

  on_group_state-Kept :
      (fuel : ℕ) (state : GroupState) (w : Announcer)
      → Enough n fuel w.asked
      → IsUp w
      → Ends (λ _ v. Kept w v) (on_group_state daemon fuel state w)
  on_group_state-Kept fuel group_collision w (pos, lt) u =
      Ends-bind (rename-Kept daemon n settles w u) λ _ v (k, later).
        Ends-map (create_services-Kept daemon n settles fuel v (pos, omega arith) k.up)
          λ _ q l. Kept-trans k l
  on_group_state-Kept fuel group_failure w e u = quit-Kept w u
  on_group_state-Kept fuel _ w e u = ends (Kept-refl u)

  entry_group_callback-Kept :
      (fuel : ℕ) (p : Pointer (Unit {0})) (state : GroupState) (w : Announcer)
      → Enough n fuel w.asked
      → IsUp w
      → Ends (λ _ v. Kept w v) (entry_group_callback daemon fuel p state w)
  entry_group_callback-Kept fuel null state w e u = ends (Kept-refl u)
  entry_group_callback-Kept fuel freed state w e u = ends (Kept-refl u)
  entry_group_callback-Kept fuel (live _) state w e u = on_group_state-Kept fuel state w e u

  handle_event-Kept :
      (fuel : ℕ) (event : Event) (w : Announcer)
      → Enough n fuel w.asked
      → IsUp w
      → Ends (λ _ v. Kept w v) (handle_event daemon fuel event w)
  handle_event-Kept fuel (client_event state) w e u = client_callback-Kept fuel state w e u
  handle_event-Kept fuel (group_event state) w e u =
      entry_group_callback-Kept fuel w.avahi_group state w e u

  -- Any sequence of events.
  pub handle_events-Kept :
      (fuel : ℕ) (events : List Event) (w : Announcer)
      → Enough n fuel w.asked
      → IsUp w
      → Ends (λ _ v. Kept w v) (handle_events daemon fuel events w)
  handle_events-Kept fuel [] w e u = ends (Kept-refl u)
  handle_events-Kept fuel (event ∷ events) w (pos, lt) u =
      Ends-bind (handle_event-Kept fuel event w (pos, lt) u) λ _ v k.
        Ends-map (handle_events-Kept fuel events v (pos, omega (arith, k.asked)) k.up)
          λ _ q l. Kept-trans k l

  pub handle_states-Kept :
      (fuel : ℕ) (states : List ClientState) (w : Announcer)
      → Enough n fuel w.asked
      → IsUp w
      → Ends (λ _ v. Kept w v) (handle_states daemon fuel states w)
  handle_states-Kept fuel [] w e u = ends (Kept-refl u)
  handle_states-Kept fuel (state ∷ states) w (pos, lt) u =
      Ends-bind (client_callback-Kept fuel state w (pos, lt) u) λ _ v k.
        Ends-map (handle_states-Kept fuel states v (pos, omega (arith, k.asked)) k.up)
          λ _ q l. Kept-trans k l
