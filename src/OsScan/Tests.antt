-- ===== src/OsScan/Tests.antt =====
-- Runs of the scans at concrete inputs.
use cheops_ng.Prelude.{◌≡◌, ◌≢◌, refl, true, List, [], ◌∷◌, Option, none, some}
use cheops_ng.Prelude.Bytes.{put_word, put_string}
use cheops_ng.OsScan.Reply.{
  Port, Scan, Reply, send_osscan_reply, put_option, port_body, os_options, port_options,
  uptime_options,
}
use cheops_ng.OsScan.Client.{Client}
use cheops_ng.OsScan.Worker.{
  Sending, Job, State, woken, initial, enqueue_osscan, sem_wait, take, work, osscan_timer, Move,
  request, post, tick, thread, step, run, keep_reply, agent_osscan_send_event, unlock_read,
  send_kept,
}
use cheops_ng.OsScan.Order.{IsOrdered}
use cheops_ng.OsScan.Histories.{run-IsOrdered, woken-never_empty}

abbrev web : Port
web = record {
  protocol = 6;
  portid = 80;
  state = 1;
  service = some (104 ∷ 116 ∷ []);
  owner = none;
  proto = 0;
  rpcnum = 0;
  rpclowver = 0;
  rpchighver = 0;
}

abbrev host : Scan
host = record {
  addr = 167772161;
  os_name = some (76 ∷ 105 ∷ []);
  ports = web ∷ [];
  uptime_seconds = some 3600;
  uptime_last_boot = none;
}

abbrev new_client : Client
new_client = record { os_data = none; named = []; probed = [] }

abbrev known : Client
known = record {
  os_data = some record {
    os = some (76 ∷ 105 ∷ []);
    ports =
        record {
          port = 80;
          protocol = 6;
          proto = 0;
          state = 1;
          rpcnum = 0;
          rpclowver = 0;
          rpchighver = 0;
          name = 104 ∷ 116 ∷ [];
          owner = [];
        }
        ∷ [];
    uptime_seconds = 3600;
    uptime_last_boot = none;
  };
  named = record { port = 80; protocol = 6; name = 104 ∷ 116 ∷ [] } ∷ [];
  probed = 80 ∷ [];
}

-- 28 bytes of headers, 8 + 3 for the system, 8 + 28 + 3 + 1 for the port, 8 + 4 + 1 for the time.
abbrev host_reply : Reply
host_reply = record {
  len = 92;
  num_options = 3;
  ip = 167772161;
  np = 7;
  options =
      0 ∷ 0 ∷ 0 ∷ 1 ∷ 0 ∷ 0 ∷ 0 ∷ 11 ∷ 76 ∷ 105 ∷ 0 ∷ 0 ∷ 0 ∷ 0 ∷ 2 ∷ 0 ∷ 0 ∷ 0 ∷ 40 ∷ 0 ∷ 0 ∷ 0 ∷ 6
      ∷ 0 ∷ 0 ∷ 0 ∷ 1 ∷ 0 ∷ 0 ∷ 0 ∷ 80 ∷ 0 ∷ 0 ∷ 0 ∷ 0 ∷ 0 ∷ 0 ∷ 0 ∷ 0 ∷ 0 ∷ 0 ∷ 0 ∷ 0 ∷ 0 ∷ 0 ∷ 0
      ∷ 0 ∷ 104 ∷ 116 ∷ 0 ∷ 0 ∷ 0 ∷ 0 ∷ 0 ∷ 3 ∷ 0 ∷ 0 ∷ 0 ∷ 13 ∷ 0 ∷ 0 ∷ 14 ∷ 16 ∷ 0 ∷ [];
}

abbrev host_reply8 : Reply
host_reply8 = record host_reply { np = 8 }

host_fits8 : send_osscan_reply host 8 ≡ some host_reply8
unfolding send_osscan_reply os_options port_options uptime_options put_option port_body put_word
    put_string
host_fits8 = refl

abbrev first_job : Job
first_job = record { name = 1; np = 7; agent = 5; flags = 0; ports = 0 }

abbrev second_job : Job
second_job = record { name = 2; np = 8; agent = 6; flags = 0; ports = 0 }

-- The second request comes while the first scan runs.
abbrev moves : List Move
moves =
    request true first_job
    ∷ post
    ∷ thread none
    ∷ thread none
    ∷ request true second_job
    ∷ post
    ∷ thread none
    ∷ tick
    ∷ thread none
    ∷ []

abbrev after_moves : State
after_moves = record initial {
  queue = second_job ∷ [];
  outstanding = 1;
  phase = woken;
  queued = first_job ∷ second_job ∷ [];
  taken = first_job ∷ [];
  freed = first_job ∷ [];
}

moves_end : run moves initial ≡ some after_moves
unfolding run step enqueue_osscan work sem_wait take osscan_timer
moves_end = refl

run-IsOrdered_example : IsOrdered after_moves
run-IsOrdered_example = run-IsOrdered moves after_moves moves_end

woken-never_empty_example : after_moves.queue ≢ []
woken-never_empty_example = woken-never_empty moves after_moves moves_end refl

-- The first scan's reply waits for the timer when the second scan has been found; the timer runs
-- between the write of the second reply and its hand-over.
abbrev mixed : List Move
mixed =
    request true first_job
    ∷ post
    ∷ request true second_job
    ∷ post
    ∷ thread none
    ∷ thread none
    ∷ thread (some host)
    ∷ thread none
    ∷ thread none
    ∷ thread none
    ∷ thread none
    ∷ thread none
    ∷ thread none
    ∷ thread (some host)
    ∷ thread none
    ∷ tick
    ∷ []

abbrev sent_by : Option State → List Sending
sent_by none = []
sent_by (some s) = s.sent

-- The only reply that is sent is the one to the second job, and it goes to the agent of the first.
misdirected : sent_by (run mixed initial) ≡ record { agent = 5; reply = host_reply8 } ∷ []
unfolding run step enqueue_osscan work sem_wait take keep_reply agent_osscan_send_event unlock_read
    osscan_timer send_kept send_osscan_reply os_options port_options uptime_options put_option
    port_body put_word put_string
misdirected = refl
