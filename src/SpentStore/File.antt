-- ===== src/SpentStore/File.antt =====
-- `FileSpentStore`: one marker file for each token, made by an exclusive open. The file system is a
-- parameter.
use decision_os_min.Prelude.{String, ◌⧺◌, ◌≡◌, ◌≢◌, refl, Bool, true, false}
use decision_os_min.Py.{Value}
use decision_os_min.Py.Exc.{Exc, ok, raise, Exn}
use decision_os_min.Py.Runtime.{Runtime}
use decision_os_min.SpentStore.Protocol.{SpentStore, IsAtomic}

-- How `os.open` with `O_CREAT | O_EXCL | O_WRONLY` ends.
pub data Opened : Type 0 where
  opened exists : Opened
  open_failed : String → Opened

-- How `os.write` and `os.fsync` end; the descriptor is closed either way.
pub data Written : Type 0 where
  written : Written
  write_failed : String → Written

pub record FileSystem : Type 1 where
  pub State : Type 0
  pub open_exclusive : String → State → Opened × State
  pub write_sync : String → String → State → Written × State

-- What POSIX documents of `O_EXCL`, and that neither call removes a file.
pub record IsExclusive (F : FileSystem) : Type 0 where
  pub has : F.State → String → Bool
  pub creates :
      (path : String) (s : F.State)
      → (F.open_exclusive path s).0 ≡ Opened.opened
      → (has s path ≡ false) × (has (F.open_exclusive path s).1 path ≡ true)
  pub excludes :
      (path : String) (s : F.State)
      → has s path ≡ true
      → (F.open_exclusive path s).0 ≢ Opened.opened
  pub open_keeps :
      (path other : String) (s : F.State)
      → has s other ≡ true
      → has (F.open_exclusive path s).1 other ≡ true
  pub write_keeps :
      (path content other : String) (s : F.State)
      → has s other ≡ true
      → has (F.write_sync path content s).1 other ≡ true

-- the marker of a token
unfoldable pub safe_name : Runtime → String → String
safe_name R token = R.sha256 token

unfoldable pub marker : Runtime → String → String → String
marker R directory token = directory ⧺ "/" ⧺ safe_name R token

module _ (R : Runtime) (F : FileSystem) (directory : String) where
  unfoldable pub after_write : String → Written × F.State → Exc Bool × F.State
  after_write token (Written.written, s) = (ok true, s)
  after_write token (Written.write_failed e, s) = (
    raise (
        Exn.spent_store_unavailable
          ("spent-store write failed for " ⧺ R.repr (Value.str token) ⧺ ": " ⧺ e)),
    s,
  )

  unfoldable pub after_open : String → Opened × F.State → Exc Bool × F.State
  after_open token (Opened.opened, s) =
      after_write token (F.write_sync (marker R directory token) token s)
  after_open token (Opened.exists, s) = (ok false, s)
  after_open token (Opened.open_failed e, s) = (
    raise (
        Exn.spent_store_unavailable
          ("spent-store unreachable for " ⧺ R.repr (Value.str token) ⧺ ": " ⧺ e)),
    s,
  )

  unfoldable pub spend_in_file : String → F.State → Exc Bool × F.State
  spend_in_file token s = after_open token (F.open_exclusive (marker R directory token) s)

  abbrev pub file_store : SpentStore
  file_store = record { State = F.State; try_spend = spend_in_file }

  module _ (E : IsExclusive F) where
    abbrev has_marker : F.State → String → Bool
    has_marker s token = E.has s (marker R directory token)

    write_state : (token : String) (w : Written × F.State) → (after_write token w).1 ≡ w.1
    unfolding after_write
    write_state token (Written.written, s) = refl
    write_state token (Written.write_failed e, s) = refl

    open-keeps :
        (token other : String) (o : Opened × F.State)
        → E.has o.1 other ≡ true
        → E.has (after_open token o).1 other ≡ true
    unfolding after_open
    open-keeps token other (Opened.opened, s) h =
        rw write_state (E.write_keeps (marker R directory token) token other s h)
    open-keeps token other (Opened.exists, s) h = h
    open-keeps token other (Opened.open_failed e, s) h = h

    open-first :
        (token : String) (o : Opened × F.State)
        → (after_open token o).0 ≡ ok true
        → o.0 ≡ Opened.opened
    unfolding after_open
    open-first token (Opened.opened, s) h = refl
    open-first token (Opened.exists, s) h = cc
    open-first token (Opened.open_failed e, s) h = cc

    -- On a file system whose exclusive open is exclusive, the store is atomic, a token being spent
    -- when its marker is there; a marker stays also where writing it failed.
    pub file_store-IsAtomic : IsAtomic file_store
    unfolding spend_in_file
    file_store-IsAtomic = record {
      is_spent = has_marker;
      first = λ t s h.
          let path = marker R directory t in
          let (fresh, made) = E.creates path s (open-first t (F.open_exclusive path s) h) in
          (fresh, open-keeps t path (F.open_exclusive path s) made);
      replay = λ t s h e.
          E.excludes (marker R directory t) s h
            (open-first t (F.open_exclusive (marker R directory t) s) e);
      kept = λ t j s h.
          open-keeps t (marker R directory j) (F.open_exclusive (marker R directory t) s)
            (E.open_keeps (marker R directory t) (marker R directory j) s h);
    }
