-- ===== src/Wan/Queue/Runs.antt =====
-- Runs of the queue of crates/wan/src/queue.rs.
use bonsaigrid.Base.{
  ℕ, suc, ◌+◌, ◌<◌, ◌≡◌, refl, sym, ap, subst, ◌∙◌, List, [], ◌∷◌, ◌++◌, length, length-append,
  append_assoc, append-nil, u64_mod, arith,
}
use bonsaigrid.Base.Bytes.{Bytes}
use bonsaigrid.Wan.Record.{WanRecord}
use bonsaigrid.Wan.Queue.{
  WanQueue, QueueOp, appends, acks, targets, reclaims, set_targets, ack_target, reclaim, run_op,
  run_ops, appended,
}
use bonsaigrid.Wan.Queue.Sender.{
  IsSender, append-IsSender, set_targets-IsSender, ack_target-IsSender, reclaim-IsSender,
}

module _ (crc : Bytes → ℕ) where
  run_op-IsSender :
      (t : Bytes) (all : List WanRecord) (q : WanQueue) (op : QueueOp)
      → IsSender crc t all q
      → suc (length (all ++ appended (op ∷ []))) < u64_mod
      → IsSender crc t (all ++ appended (op ∷ [])) (run_op crc q op)
  unfolding run_op appended
  run_op-IsSender t all q (appends r) v h =
      append-IsSender crc t all q r v (omega (arith, h, length-append all (r ∷ [])))
  run_op-IsSender t all q (acks s n) v h =
      subst (λ rs. IsSender crc t rs (ack_target q s n)) (sym (append-nil all))
        (ack_target-IsSender crc t all q s n v)
  run_op-IsSender t all q (targets ts) v h =
      subst (λ rs. IsSender crc t rs (set_targets q ts)) (sym (append-nil all))
        (set_targets-IsSender crc t all q ts v)
  run_op-IsSender t all q reclaims v h =
      subst (λ rs. IsSender crc t rs (reclaim crc q).0) (sym (append-nil all))
        (reclaim-IsSender crc t all q v)

  appended-cons :
      (op : QueueOp) (ops : List QueueOp) → appended (op ∷ ops) ≡ appended (op ∷ []) ++ appended ops
  unfolding appended
  appended-cons (appends r) ops = refl
  appended-cons (acks s n) ops = refl
  appended-cons (targets ts) ops = refl
  appended-cons reclaims ops = refl

  pub run_ops-IsSender :
      (t : Bytes) (ops : List QueueOp) (all : List WanRecord) (q : WanQueue)
      → IsSender crc t all q
      → suc (length all + length (appended ops)) < u64_mod
      → IsSender crc t (all ++ appended ops) (run_ops crc q ops)
  unfolding run_ops appended
  run_ops-IsSender t [] all q v h = subst (λ rs. IsSender crc t rs q) (sym (append-nil all)) v
  run_ops-IsSender t (op ∷ ops) all q v h =
      let one = appended (op ∷ []) in
      let split = ap length (appended-cons op ops) ∙ length-append one (appended ops) in
      let total = length-append all one in
      let later =
        append_assoc all one (appended ops) ∙ ap (λ rs. all ++ rs) (sym (appended-cons op ops)) in
      subst (λ rs. IsSender crc t rs (run_ops crc (run_op crc q op) ops)) later
        (run_ops-IsSender t ops (all ++ one) (run_op crc q op)
          (run_op-IsSender t all q op v (omega (arith, h, split, total)))
          (omega (arith, h, split, total)))
