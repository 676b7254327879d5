-- ===== src/Media/Port/Tests.antt =====
-- Runs of the ports of include/eavp/media/port.hpp on small examples.
use eavp.Base.{ℕ, List, [], ◌∷◌, none, some, arith}
use eavp.Media.Queue.{Queue, block, new_queue}
use eavp.Media.Port.{OutputPort, InputPort, send, connect}
use eavp.Media.Port.Send.{SendsAll, send_all_or_none}
use eavp.Media.Port.Wired.{Connects, connect_wires}

abbrev output : OutputPort
output = record { name = "out"; connections = 0 ∷ 1 ∷ [] }

abbrev input : InputPort
input = record { name = "in"; capacity = 4; policy = block; queue = none }

abbrev queues : List (Queue ℕ)
queues = new_queue 1 block ∷ new_queue 2 block ∷ []

send_all_or_none_example : SendsAll 7 output queues (send output (some 7) queues)
send_all_or_none_example = send_all_or_none 7 output queues ((omega arith, tt), (tt, tt))

connect_wires_example : Connects output input queues (connect output input queues)
connect_wires_example =
    connect_wires output input queues (record {
      distinct = ((omega arith, tt), (tt, tt));
      within = (omega arith, (omega arith, tt));
    })
