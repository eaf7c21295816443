-- ===== src/Tests/Layer.antt =====
-- A base station with the tables of the other tests, and packets for it.
use nrg_5_sorbonne.Base.{
  ℕ, ◌+◌, ◌-◌, ◌≡◌, refl, true, false, none, some, List, [], ◌∷◌, ◌++◌, arith, distinct, mem,
  length, replicate, take, length-replicate,
}
use nrg_5_sorbonne.Memory.{ok, crash, Heap, update, Returns}
use nrg_5_sorbonne.NsoCommon.{to_bytes, of_bytes}
use nrg_5_sorbonne.Packet.{
  Packet, get_devid, get_byte, alloc_packet, set_len_ver, htons, get_u16, put_u16, put_bytes,
  splice, overwrite, poke, length_of, get_bytes, peek,
}
use nrg_5_sorbonne.Queue.{Pq, pq_put_packet, pq_get_packet}
use nrg_5_sorbonne.Queue.Fifo.{IsPq, nil, cons, pq_put_packet-IsPq, pq_get_packet-cons}
use nrg_5_sorbonne.Nso.State.{Env, NsoLayer, nrg5_unreg, nrg5_connected}
use nrg_5_sorbonne.Nso.Forward.{find_hop}
use nrg_5_sorbonne.Nso.Forward.Routes.{RouteOf, find_hop-RouteOf}
use nrg_5_sorbonne.Nso.Data.{make_data_pkt, deliver, read_pkt_from_vnf, fully_recv}
use nrg_5_sorbonne.Nso.Data.RoundTrip.{make_data_pkt-deliver, make_data_pkt-overflow}
use nrg_5_sorbonne.Nso.Data.FromVnf.{read_pkt_from_vnf-byte_len, read_pkt_from_vnf-route_update}
use nrg_5_sorbonne.Tsd.{process_bs_reg_reply}
use nrg_5_sorbonne.Tsd.Reply.{after_reply, process_bs_reg_reply_lem}
use nrg_5_sorbonne.Son.{route_update, update_rules}
use nrg_5_sorbonne.Son.Rules.{Fails, update_rules-Fails, route_update-Fails}
use nrg_5_sorbonne.Son.{apply_rule}
use nrg_5_sorbonne.Son.Entries.{IsUnique}
use nrg_5_sorbonne.Tests.Linux.{linux}
use nrg_5_sorbonne.Tests.Arp.{two_devices}
use nrg_5_sorbonne.Tests.Nbr.{nbr_two}
use nrg_5_sorbonne.Tests.Fwd.{wlan, fwd_one, fwd_two, fwd_one-IsFwdTable, fwd_two-IsFwdTable}
use nrg_5_sorbonne.Tests.Bspc.{bspc_two}

abbrev pub block : List ℕ
block = replicate 192 0

abbrev pub env : Env
env = record {
  accepts = λ f. true;
  credentials = λ id. (8, id);
  block = some block;
  stray_null = false;
  vnf_takes = λ fd bytes. length bytes;
  vnf_broken = false;
}

-- A data packet of no bytes.
abbrev one_packet : Packet
one_packet = record { size = 64; byte_len = 0; data_at = 64; tail = 64; buf = block }

abbrev pq_heap : Heap Packet
pq_heap = record { cell = update (λ _. none) 1 (some one_packet); next = 2; room = 3 }

abbrev queue : Pq
queue = record { pq_head = 1 ∷ []; heap = pq_heap }

-- The base station has the id 1 and the MTU 64.
abbrev pub station : NsoLayer
station = record {
  ifaces = some wlan ∷ [];
  ifaces_nb = 1;
  arpt = two_devices;
  son_fwdt = fwd_one;
  local_fwdt = fwd_two;
  nbrt = nbr_two;
  gw_id = 0;
  dev_state = nrg5_unreg;
  state_lock = false;
  dev_id = 1;
  mtu = 64;
  battery = 100;
  data_pq = queue;
  data_lock = false;
  aaa_reg_cred = [];
  aaa_cred_size = 0;
  bspc_tbl = bspc_two;
  vtsd_fd = 20;
  vson_fd = 21;
  sent = [];
}

abbrev pub connected : NsoLayer
connected = record station { dev_state = nrg5_connected }

make_data_pkt-deliver_example :
    Returns
      (λ pkt.
        deliver 2 pkt
        ≡ ok (record {
          src = 1;
          dst = 9;
          proto = 5;
          bytes = take 2 (take (64 - 20) (11 ∷ 12 ∷ 13 ∷ []));
        }))
      (make_data_pkt env station (11 ∷ 12 ∷ 13 ∷ []) 9 5)
make_data_pkt-deliver_example =
    make_data_pkt-deliver env station block (11 ∷ 12 ∷ 13 ∷ []) 9 5 2 refl refl (omega arith)
      (omega arith) (omega arith) (omega arith) (omega arith) (omega arith)

make_data_pkt-overflow_example : make_data_pkt env station (replicate 16364 0) 9 5 ≡ crash
make_data_pkt-overflow_example =
    make_data_pkt-overflow env station block (replicate 16364 0) 9 5 refl refl (omega arith)
      (omega (arith, length-replicate {A = ℕ} 16364 0))

-- The route to 9 is only in the local table.
find_hop-RouteOf_example :
    Returns (λ (hop, nsol'). RouteOf station 9 hop × (nsol' ≡ station)) (find_hop station 9)
find_hop-RouteOf_example =
    find_hop-RouteOf station 9 fwd_one-IsFwdTable fwd_two-IsFwdTable refl refl

-- A reply of success from 5 to the base station.
abbrev pub reply : Packet
reply = record {
  size = 64;
  byte_len = 22;
  data_at = 0;
  tail = 22;
  buf = 5 ∷ replicate 7 0 ++ 1 ∷ replicate 7 0 ++ 0xF0 ∷ 0 ∷ 0 ∷ 22 ∷ 3 ∷ 0 ∷ [];
}

process_bs_reg_reply_lem_example :
    process_bs_reg_reply station reply ≡ ok (after_reply 5 1 0 station)
unfolding get_devid get_byte get_bytes peek of_bytes
process_bs_reg_reply_lem_example = process_bs_reg_reply_lem station reply 5 1 0 refl refl refl refl

-- A message of vSON with one rule, that a route to 7 is to be added by way of 9.
abbrev rule_msg : List ℕ
rule_msg =
    21 ∷ replicate 7 0
    ++ 1 ∷ replicate 7 0
    ++ 0xF0 ∷ 1 ∷ 0 ∷ 39 ∷ 1 ∷ 0 ∷ 7 ∷ replicate 7 0
    ++ 9 ∷ replicate 7 0
    ++ 0 ∷ []

abbrev rule_pkt : Packet
rule_pkt = record {
  size = 64;
  byte_len = 59;
  data_at = 64;
  tail = 123;
  buf = replicate 64 0 ++ rule_msg ++ replicate 89 0;
}

read_rule : read_pkt_from_vnf env 64 rule_msg ≡ ok (rule_pkt, [])
unfolding read_pkt_from_vnf fully_recv alloc_packet put_bytes poke splice overwrite set_len_ver
    get_u16 put_u16 get_bytes peek of_bytes to_bytes htons length_of
read_rule = refl

read_pkt_from_vnf-byte_len_example : rule_pkt.byte_len + length {A = ℕ} [] ≡ length rule_msg + 20
read_pkt_from_vnf-byte_len_example =
    read_pkt_from_vnf-byte_len env 64 rule_msg [] rule_pkt refl read_rule

read_pkt_from_vnf-route_update_example : Fails (route_update env connected rule_pkt)
unfolding get_devid get_bytes peek of_bytes
read_pkt_from_vnf-route_update_example =
    read_pkt_from_vnf-route_update env connected 1 64 rule_msg [] rule_pkt refl read_rule refl refl
      refl refl

update_rules-Fails_example : Fails (update_rules apply_rule 38 38 rule_pkt 21 connected)
update_rules-Fails_example =
    update_rules-Fails apply_rule 38 38 rule_pkt 21 connected (omega arith) (omega arith)

route_update-Fails_example : Fails (route_update env connected rule_pkt)
unfolding get_devid get_bytes peek of_bytes
route_update-Fails_example = route_update-Fails env connected rule_pkt refl refl refl (omega arith)

queue-IsPq : IsPq queue (one_packet ∷ [])
unfolding distinct mem
queue-IsPq = record { items = cons refl nil; once = refl; allocated = λ p b. ground arith }

pq_put_packet-IsPq_example :
    Returns (λ pq'. IsPq pq' ((one_packet ∷ []) ++ reply ∷ [])) (pq_put_packet queue reply)
pq_put_packet-IsPq_example = pq_put_packet-IsPq queue reply queue-IsPq (omega arith)

pq_get_packet-cons_example :
    Returns (λ (r, pq'). (r ≡ some one_packet) × IsPq pq' []) (pq_get_packet queue)
pq_get_packet-cons_example = pq_get_packet-cons queue queue-IsPq

pub fwd_two-IsUnique : IsUnique fwd_two
unfolding mem
fwd_two-IsUnique p q e f a b same = ground (arith, a.listed, a.cell, b.listed, b.cell)
