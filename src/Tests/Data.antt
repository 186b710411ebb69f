-- ===== src/Tests/Data.antt =====
-- States that the tests share: a master with pid 10 that was started by a configurator with pid 50,
-- and a slave with pid 77.
use real_time_cyclic.Prelude.{ℕ, pos, List, [], ◌∷◌, none}
use real_time_cyclic.Common.{Shmseg, ControlShm, zeroed_shmseg, nack, ack, connect_slave}
use real_time_cyclic.Master.Link.{Link}
use real_time_cyclic.Master.State.{Master}
use real_time_cyclic.Master.Init.{init}
use real_time_cyclic.Slave.Node.{Self, Node}
use real_time_cyclic.Slave.Name.Padding.{padded}

abbrev pub control_start : ControlShm
control_start = record {
  response = nack;
  request = connect_slave;
  configurator_pid = pos 50;
  affected_slave_pid = pos 77;
}

unfoldable pub master_start : Master
master_start = init (pos 10) control_start

-- The name "dave".
abbrev pub dave : List ℕ
dave = b'd' ∷ b'a' ∷ b'v' ∷ b'e' ∷ []

-- A segment whose owner has acknowledged the request to connect.
unfoldable pub seg_acknowledged : Shmseg
unfolding padded zeroed_shmseg
seg_acknowledged = record zeroed_shmseg {
  pid = pos 77;
  name = padded dave;
  req_m_to_s = connect_slave;
  res_s_to_m = ack;
  sem_m_to_s_request = 0;
  sem_s_to_m_request = 1;
  communication_cycle_us = pos 500000;
}

unfoldable pub link_acknowledged : Link
unfolding seg_acknowledged
link_acknowledged = record { seg = seg_acknowledged; control = control_start; sent = []; log = [] }

unfoldable pub self_dave : Self
unfolding padded
self_dave = record {
  name = padded dave;
  change_name_idx = 0;
  available_parameters = 7;
  last_sec = 0;
  last_usec = 0;
  excess_interval_us = pos 0;
  allow_cycle = 0;
  shmseg = none;
}

unfoldable pub node_dave : Node
unfolding self_dave seg_acknowledged
node_dave = record { self = self_dave; seg = seg_acknowledged; master_pid = pos 10; sent = [] }
