-- ===== src/Db/Stuck.antt =====
-- What a flush that fails leaves.
use nova_kv.Prelude.{ℕ, ◌≡◌, ◌≤◌, refl, ap, arith, false, none, some, ltb}
use nova_kv.Tables.{MemOps, TableOps}
use nova_kv.Manifest.{Faults}
use nova_kv.Db.{Db, MinorCtx, mem_limit, is_some, make_room, build_minor_sst, finish_minor}
use nova_kv.Db.Background.{flushing, rest, after_minor, bg_step_from, bg_step}
use nova_kv.Db.Flush.{IsFlushing}

module _ {M T : Type 0} (mems : MemOps M) (tables : TableOps T) where
  rest_blocks :
      (io : ℕ → Faults) (db : Db M T) (m : M)
      → db.imm ≡ some m
      → mem_limit ≤ MemOps.count mems db.mem
      → make_room mems tables io (rest db).db ≡ none
  unfolding make_room rest is_some
  rest_blocks io db m e full = rw (is_full, e) refl
    where
      is_full : ltb (MemOps.count mems db.mem) mem_limit ≡ false
      is_full = ground (arith, full)

  rest_stays : (io : ℕ → Faults) (db : Db M T) → bg_step mems tables io (rest db) ≡ rest db
  unfolding bg_step bg_step_from rest
  rest_stays io db = refl

  failed_rest :
      (io : ℕ → Faults) (ctx : MinorCtx M) (db : Db M T)
      → build_minor_sst mems tables ctx ≡ none
      → bg_step mems tables io (record { db = db; bg = flushing ctx }) ≡ rest db
  unfolding bg_step bg_step_from finish_minor after_minor
  failed_rest io ctx db e = ap (λ o. after_minor (finish_minor mems tables io ctx o db)) e

  -- The background thread flushes imm_, BuildMinorSST gives no table, and the memory table is
  -- full. The thread goes back to waiting with the table still in imm_; every Put from then on
  -- waits, whatever the file system does later, and no step of the background thread changes the
  -- state again.
  pub failed_flush_blocks_puts :
      (io : ℕ → Faults) (ctx : MinorCtx M) (db : Db M T)
      → IsFlushing mems tables ctx db
      → build_minor_sst mems tables ctx ≡ none
      → mem_limit ≤ MemOps.count mems db.mem
      → let s = bg_step mems tables io (record { db = db; bg = flushing ctx }) in
        ((later : ℕ → Faults) → make_room mems tables later s.db ≡ none)
        × ((later : ℕ → Faults) → bg_step mems tables later s ≡ s)
  failed_flush_blocks_puts io ctx db at_flush failed full =
      rw (failed_rest io ctx db failed)
        (λ later. rest_blocks later db ctx.flushing_imm at_flush full, λ later. rest_stays later db)
