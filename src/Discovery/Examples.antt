-- ===== src/Discovery/Examples.antt =====
-- Discovery with a daemon that reports one collision, and with one that goes away.
use libdsvdc.Base.{◌≡◌, refl, true, false, none, some, [], ◌∷◌, if◌then◌else◌, ltb, arith}
use libdsvdc.Discovery.{discovery_work, discovery_init, discovery_cleanup}
use libdsvdc.Discovery.Restart.{Worked, discovery_work-Worked}
use libdsvdc.Discovery.Up.{IsSettled}
use libdsvdc.Discovery.World.{
  null, live, client_running, group_collision, client_event, group_event, added, added_collision,
  Daemon, Announcer, ◌>>◌, undefined, Ends,
}
use libdsvdc.Memory.{malloc, free}
use libdsvdc.Samples.{plenty}

abbrev daemon : Daemon
daemon = record {
  poll_new = λ k. true;
  strdup = λ k. true;
  client_new = λ k. some (client_running ∷ []);
  iterate = λ k. (client_event client_running ∷ group_event group_collision ∷ [], false);
  group_new = λ k. true;
  is_empty = λ k. true;
  list_new = λ k. true;
  list_add = λ k. true;
  add_service = λ name k. if ltb k 5 then added_collision else added;
  commit = λ k. true;
  alternative_name = λ name k. some (66 ∷ []);
}

daemon-IsSettled : IsSettled daemon 5
daemon-IsSettled = record {
  settled = λ name k h e.
      let late : ltb k 5 ≡ false = ground arith in
      let is_added : added ≡ added_collision = rw late at (e) in cc;
  named = λ name k e. cc;
}

abbrev announcing : Announcer
announcing = record {
  avahi_group = null;
  avahi_poll = live tt;
  avahi_client = live tt;
  avahi_name = live (65 ∷ []);
  noauto = false;
  locks = 0;
  asked = 0;
  objects = 3;
  quits = 0;
  published = [];
  mem = plenty;
}

discovery_work-Worked_example :
    Ends (λ _ v. Worked daemon announcing v) (discovery_work daemon 9 true announcing)
discovery_work-Worked_example =
    discovery_work-Worked daemon 5 daemon-IsSettled 9 announcing (omega arith, omega arith)
      (record { poll = refl; name = (65 ∷ [], refl); group = refl; client = refl })

-- The poll fails, and no client can be made: the next call is undefined.
abbrev gone : Daemon
gone = record daemon { iterate = λ k. ([], false); client_new = λ k. none }

two_calls : (discovery_work gone 9 true >> discovery_work gone 9 true) announcing ≡ undefined
unfolding discovery_work discovery_init discovery_cleanup malloc free
two_calls = refl
