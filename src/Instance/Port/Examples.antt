-- ===== src/Instance/Port/Examples.antt =====
-- The port search where two ports are taken.
use libdsvdc.Base.{true, some, if◌then◌else◌, ltb}
use libdsvdc.Effects.Ends.{Ends}
use libdsvdc.Instance.Port.{bound, in_use, Network, setup_socket}
use libdsvdc.Instance.Port.Search.{SetUp, setup_socket-SetUp}
use libdsvdc.Samples.{running}

abbrev crowded : Network
crowded = record {
  socket = some 4;
  reuse_option = true;
  linger_option = true;
  bind = λ p. if ltb p 49502 then in_use else bound;
  listen = true;
}

setup_socket-SetUp_example : Ends (SetUp crowded running) (setup_socket crowded running)
setup_socket-SetUp_example = setup_socket-SetUp crowded running
