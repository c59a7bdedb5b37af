-- ===== src/Db/Background.antt =====
-- BackgroundLoop, one lock scope at a time, beside a thread that calls Put.
use nova_kv.Prelude.{
  ℕ, ◌≡◌, Bool, true, false, Bytes, List, [], ◌∷◌, Option, none, some, if◌then◌else◌, ltb,
}
use nova_kv.ValueRecord.{ValueRecord, IsEnumerator}
use nova_kv.Tables.{MemOps, TableOps}
use nova_kv.Manifest.{Faults}
use nova_kv.Compaction.{L0ToL1Ctx}
use nova_kv.Db.{
  Db, MinorCtx, mem_limit, make_room, write_mem, begin_minor, build_minor_sst, finish_minor,
  begin_compact, finish_compact_with,
}

-- Where the background thread is between two lock scopes.
pub data Background (M : Type 0) : Type 0 where
  waiting : Background M
  flushing : MinorCtx M → Background M
  to_compact : Background M
  compacting : L0ToL1Ctx → Background M

pub record System (M T : Type 0) : Type 0 where
  pub db : Db M T
  pub bg : Background M

-- The flag is reset and the thread waits again.
unfoldable pub rest : {M T : Type 0} → Db M T → System M T
rest db = record { db = record db { bg_compaction_scheduled = false }; bg = waiting }

unfoldable pub after_minor : {M T : Type 0} → Db M T × Bool → System M T
after_minor (db, true) = record { db = db; bg = to_compact }
after_minor (db, false) = rest db

unfoldable pub after_begin_minor : {M T : Type 0} → Db M T × Option (MinorCtx M) → System M T
after_begin_minor (db, none) = rest db
after_begin_minor (db, some ctx) = record { db = db; bg = flushing ctx }

unfoldable pub after_begin_compact : {M T : Type 0} → Db M T × Option L0ToL1Ctx → System M T
after_begin_compact (db, none) = rest db
after_begin_compact (db, some ctx) = record { db = db; bg = compacting ctx }

module _ {M T : Type 0} (mems : MemOps M) (tables : TableOps T) where
  -- The next lock scope of the background thread, with the unlocked work in front of it.
  unfoldable pub bg_step_from : (ℕ → Faults) → Background M → Db M T → System M T
  bg_step_from io waiting db =
      if db.bg_compaction_scheduled
      then after_begin_minor (begin_minor mems tables (io 0) db)
      else record { db = db; bg = waiting }
  bg_step_from io (flushing ctx) db =
      after_minor (finish_minor mems tables io ctx (build_minor_sst mems tables ctx) db)
  bg_step_from io to_compact db = after_begin_compact (begin_compact mems tables (io 0) db)
  bg_step_from io (compacting ctx) db = rest (finish_compact_with mems tables io ctx db)

  unfoldable pub bg_step : (ℕ → Faults) → System M T → System M T
  bg_step io s = bg_step_from io s.bg s.db

  -- What is reached from a database by Puts and the background thread in any order, with the
  -- records that were written, the newest first.
  pub data Reach (start : Db M T) : List (Bytes × ValueRecord) → System M T → Type 0 where
    opens : Reach start [] (record { db = start; bg = waiting })
    makes_room :
        {written : List (Bytes × ValueRecord)} {s : System M T} (io : ℕ → Faults) (db : Db M T)
        → Reach start written s
        → make_room mems tables io s.db ≡ some db
        → Reach start written (record s { db = db })
    writes :
        {written : List (Bytes × ValueRecord)} {s : System M T} (k : Bytes) (r : ValueRecord)
        → Reach start written s
        → ltb (MemOps.count mems s.db.mem) mem_limit ≡ true
        → IsEnumerator r.type
        → Reach start ((k, r) ∷ written) (record s { db = write_mem mems tables k r s.db })
    works :
        {written : List (Bytes × ValueRecord)} {s : System M T} (io : ℕ → Faults)
        → Reach start written s
        → Reach start written (bg_step io s)
