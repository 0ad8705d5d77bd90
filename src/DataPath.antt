-- ===== src/DataPath.antt =====
-- bam/include/page_cache.h: reading and writing a page of the cache over a queue pair, at once or
-- with the wait apart from the submission.
use generic_asynchronous_io.Prelude.{
  ℕ, ◌+◌, Bool, true, false, if◌then◌else◌, Option, none, some, u64,
}
use generic_asynchronous_io.Command.{NvmCmd, header, data_ptr, rw_blks, io_read, io_write}

-- What a completion is found at: its place, and the head that the search saw.
pub record CqPlace : Type 0 where
  pub cq_pos : ℕ
  pub head : ℕ
  pub head_ : ℕ

-- The functions of bam/include/nvm_parallel_queue.h on a queue pair `Q`.
pub record QueuePair (Q : Type 0) : Type 0 where
  pub nvm_namespace : Q → ℕ
  pub get_cid : Q → ℕ × Q
  pub sq_enqueue : Q → NvmCmd → ℕ × Q
  pub cq_poll : Q → (cid : ℕ) → CqPlace × Q
  pub cq_try_poll : Q → (cid : ℕ) → Option CqPlace × Q
  pub bump_tail : Q → Q  -- `cq.tail.fetch_add(1)`
  pub cq_dequeue : Q → CqPlace → Q
  pub put_cid : Q → (cid : ℕ) → Q

-- The fields of `page_cache_d_t` that these functions use, and the queue pair.
pub record PageCache (Q : Type 0) : Type 0 where
  pub prps : Bool
  pub prp1 : ℕ → ℕ
  pub prp2 : ℕ → ℕ
  pub q_head : ℕ
  pub q_tail : ℕ
  pub qp : Q

-- The fields of `s_ctx` that stand for a command under way.
pub record PendingIo : Type 0 where
  pub page_trans : ℕ
  pub cid : ℕ
  pub has_pending_io : ℕ
  pub cmd : NvmCmd

module _ {Q : Type 0} (q : QueuePair Q) where
  unfoldable pub with_qp : PageCache Q → Q → PageCache Q
  with_qp pc qp = record pc { qp = qp }

  -- The entry of a command, written over what `cmd` holds.
  unfoldable pub entry_for :
      PageCache Q → NvmCmd → (cid op starting_lba n_blocks pc_entry : ℕ) → NvmCmd
  entry_for pc cmd cid op starting_lba n_blocks pc_entry =
      let prp2 = if pc.prps then pc.prp2 pc_entry else 0 in
      rw_blks (data_ptr (header cmd cid op (q.nvm_namespace pc.qp)) (pc.prp1 pc_entry) prp2)
        starting_lba n_blocks

  -- From the completion to `cq_dequeue`.
  unfoldable pub take_completion : PageCache Q → CqPlace → PageCache Q
  take_completion pc place = record pc {
    q_tail = u64 (pc.q_tail + 1);
    qp = q.cq_dequeue (q.bump_tail pc.qp) place;
  }

  -- `read_data` and `write_data` differ in the opcode; `cmd` is the uninitialised entry.
  unfoldable pub transfer :
      PageCache Q → NvmCmd → (op starting_lba n_blocks pc_entry : ℕ) → PageCache Q
  unfolding with_qp entry_for take_completion
  transfer pc cmd op starting_lba n_blocks pc_entry =
      let (cid, qp1) = q.get_cid pc.qp in
      let entry = entry_for (with_qp pc qp1) cmd cid op starting_lba n_blocks pc_entry in
      let (sq_pos, qp2) = q.sq_enqueue qp1 entry in
      let (place, qp3) = q.cq_poll qp2 cid in
      let pc1 = take_completion (with_qp pc qp3) place in with_qp pc1 (q.put_cid pc1.qp cid)

  unfoldable pub read_data :
      PageCache Q → NvmCmd → (starting_lba n_blocks pc_entry : ℕ) → PageCache Q
  unfolding transfer
  read_data pc cmd starting_lba n_blocks pc_entry =
      transfer pc cmd io_read starting_lba n_blocks pc_entry

  unfoldable pub write_data :
      PageCache Q → NvmCmd → (starting_lba n_blocks pc_entry : ℕ) → PageCache Q
  unfolding transfer
  write_data pc cmd starting_lba n_blocks pc_entry =
      transfer pc cmd io_write starting_lba n_blocks pc_entry

  unfoldable pub read_data_submit_async :
      PageCache Q → NvmCmd → (starting_lba n_blocks : ℕ) → PendingIo → PageCache Q × PendingIo
  unfolding with_qp entry_for
  read_data_submit_async pc cmd starting_lba n_blocks ctx =
      let (cid, qp1) = q.get_cid pc.qp in
      let entry = entry_for (with_qp pc qp1) cmd cid io_read starting_lba n_blocks ctx.page_trans in
      let (sq_pos, qp2) = q.sq_enqueue qp1 entry in
      (with_qp pc qp2, record ctx { cid = cid; has_pending_io = 1; cmd = entry })

  unfoldable pub read_data_wait_async : PageCache Q → PendingIo → PageCache Q × PendingIo
  unfolding with_qp take_completion
  read_data_wait_async pc ctx =
      let (place, qp1) = q.cq_poll pc.qp ctx.cid in
      let pc1 = take_completion (with_qp pc qp1) place in
      (with_qp pc1 (q.put_cid pc1.qp ctx.cid), record ctx { has_pending_io = 0 })

  abbrev pub after_try : PageCache Q → PendingIo → Option CqPlace → Bool × (PageCache Q × PendingIo)
  after_try pc ctx none = (false, (pc, ctx))
  after_try pc ctx (some place) =
      let pc1 = take_completion pc place in
      (true, (with_qp pc1 (q.put_cid pc1.qp ctx.cid), record ctx { has_pending_io = 0 }))

  unfoldable pub read_data_try_wait_async :
      PageCache Q → PendingIo → Bool × (PageCache Q × PendingIo)
  unfolding with_qp take_completion
  read_data_try_wait_async pc ctx =
      let (found, qp1) = q.cq_try_poll pc.qp ctx.cid in after_try (with_qp pc qp1) ctx found
