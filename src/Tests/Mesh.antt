-- ===== src/Tests/Mesh.antt =====
-- Of 256 ranks with a queue pair for each other, ranks 0 and 255 are active.
use ep_demo.Prelude.{ℕ, ◌==◌, refl, if◌then◌else◌, List, [], ◌∷◌, arith}
use ep_demo.EpBuffer.{peer_rank}
use ep_demo.EpBuffer.Pairs.{IsRanks, other_end}
use ep_demo.EpBuffer.Connect.{
  Command, init2rtr, rtr2rts, ib_path, infiniband, Remote, QpInfo, fill_from,
}
use ep_demo.EpBuffer.Connect.Done.{commands_of}
use ep_demo.EpBuffer.Connect.Mesh.{Peer, Names, sync_ib-mutual}
use ep_demo.Tests.EpBuffer.{verbs, numbers, region, tables}

abbrev infos_of : ℕ → ℕ → QpInfo
infos_of r j = record { qpn = numbers r j; port_num = 1; lid = 7; link_layer = infiniband }

-- What rank `r` gets, if only rank `other` is active beside it.
abbrev remote_of : ℕ → ℕ → Remote
remote_of r other = record {
  remote_addrs = λ i. 4096;
  remote_keys = λ i. 3;
  remote_qpns = λ j. numbers (peer_rank 256 j) (other_end 256 r j);
  remote_lids = λ i. 9;
  subnet_prefixes = λ i. 1;
  interface_ids = λ i. 2;
  active_ranks_mask = λ i. if i == other then 1 else 0;
}

abbrev log_of : ℕ → ℕ → List (ℕ × Command)
log_of r j =
    (j, init2rtr (numbers r j) 5 30 (numbers j r) 7 1 (ib_path 0 9))
    ∷ (j, rtr2rts (numbers r j) 0 1 0 7 7 20)
    ∷ []

abbrev peers : ℕ → Peer
peers r =
    let other : ℕ = if r == 0 then 255 else 0 in
    record {
      verbs = verbs;
      mr = region;
      qps = infos_of r;
      remote = remote_of r other;
      before = tables;
      after = fill_from region r (remote_of r other) 0 256 tables;
      log = log_of r other;
    }

many-IsRanks : IsRanks 256
many-IsRanks = omega arith

sync_ib-mutual_example :
    Names verbs
      (infos_of 0 255)
      (numbers 255 (other_end 256 0 255))
      (commands_of 255 (log_of 0 255))
    × Names verbs
        (infos_of 255 (other_end 256 0 255))
        (numbers 0 255)
        (commands_of (other_end 256 0 255) (log_of 255 0))
sync_ib-mutual_example =
    sync_ib-mutual 256 peers 0 255 many-IsRanks (omega arith) (omega arith) (λ r j h g. refl) refl
      refl (omega arith) (omega arith)
