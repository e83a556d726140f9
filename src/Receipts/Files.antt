-- ===== src/Receipts/Files.antt =====
-- The file that src/ios_rehydrate/receipts.py reserves, as the operating system shows it: one path, the
-- inodes it may name, and the descriptors of the process. Before each system call other processes may
-- change the path and every inode, and each call may fail without an effect: both are an `Environment`.
use ios_rehydrate.Prelude.{
  ℕ, zero, suc, ◌+◌, ⊤, Bool, true, false, ◌&&◌, Option, none, some, List, [], ◌∷◌, ◌++◌, length,
  take, drop, min, ◌==◌, if◌then◌else◌,
}
use ios_rehydrate.Prelude.Bytes.{Bytes}
use ios_rehydrate.Errors.{Exception, os_error, Result, done, raise}
use ios_rehydrate.Effects.{Step, pure, throw, assign, ◌>>=◌, ◌>>◌}

-- `(st_dev, st_ino)`
pub record Identity : Type 0 where
  pub device : ℕ
  pub inode : ℕ

abbrev pub same : Identity → Identity → Bool
same i j = i.device == j.device && i.inode == j.inode

pub record Inode : Type 0 where
  pub regular : Bool
  pub link : Bool
  pub reparse : Bool
  pub links : ℕ
  pub content : Bytes

-- What the path names, if anything, and the inodes.
pub record World : Type 0 where
  pub entry : Option Identity
  pub at : Identity → Inode

-- An open file: its inode and the position of the next write.
pub record Opened : Type 0 where
  pub identity : Identity
  pub position : ℕ

-- `removed` holds the inodes whose path this process has unlinked, the latest first.
pub record Process : Type 0 where
  pub world : World
  pub descriptors : ℕ → Option Opened
  pub clock : ℕ
  pub removed : List Identity

pub record Environment : Type 0 where
  -- What other processes do before the n-th call.
  pub others : ℕ → World → World
  -- What the n-th call raises, if it fails.
  pub failure : ℕ → Option Exception
  -- How many bytes the n-th call is ready to write.
  pub progress : ℕ → ℕ
  -- The inode and the descriptor of a file that the n-th call creates.
  pub fresh_identity : ℕ → Identity
  pub fresh_descriptor : ℕ → ℕ

-- `os.stat_result`, as far as the code reads it
pub record Stat : Type 0 where
  pub identity : Identity
  pub regular : Bool
  pub link : Bool
  pub reparse : Bool
  pub links : ℕ
  pub size : ℕ

abbrev pub stat_of : World → Identity → Stat
stat_of world identity =
    let inode = world.at identity in
    record {
      identity = identity;
      regular = inode.regular;
      link = inode.link;
      reparse = inode.reparse;
      links = inode.links;
      size = length inode.content;
    }

abbrev pub set_at : Identity → Inode → World → World
set_at i inode world = record world { at = λ j. if same j i then inode else world.at j }

abbrev pub set_descriptor : ℕ → Option Opened → Process → Process
set_descriptor d opened p = record p {
  descriptors = λ e. if e == d then opened else p.descriptors e;
}

abbrev outcome : Option Exception → Result ⊤
outcome none = done tt
outcome (some e) = raise e

abbrev pub zeros : ℕ → Bytes
zeros zero = []
zeros (suc n) = 0 ∷ zeros n

-- What is in a file after `chunk` is written at a position; a gap is filled with zeros.
unfoldable pub overlay : ℕ → Bytes → Bytes → Bytes
overlay position chunk content =
    take position (content ++ zeros position) ++ (chunk ++ drop (position + length chunk) content)

abbrev pub empty_file : Inode
empty_file = record { regular = true; link = false; reparse = false; links = 1; content = [] }

module _ (env : Environment) where
  -- A system call begins: others have run, and the call fails or goes on.
  unfoldable pub enter : Step Process ⊤
  enter p = (
    outcome (env.failure p.clock),
    record p { world = env.others p.clock p.world; clock = suc p.clock },
  )

  abbrev found : Option Identity → Step Process Stat
  found none p = throw os_error p
  found (some identity) p = (done (stat_of p.world identity), p)

  -- `os.lstat(self.path)`
  unfoldable pub lstat : Step Process Stat
  unfolding enter
  lstat = do enter; λ p. found p.world.entry p

  -- The open file of a descriptor; `EBADF` if there is none.
  abbrev opened_at : ℕ → Step Process Opened
  opened_at d p = elim (p.descriptors d) [ none ↦ (raise os_error, p) | some o ↦ (done o, p) ]

  -- `os.fstat(descriptor)`
  unfoldable pub fstat : ℕ → Step Process Stat
  unfolding enter
  fstat d = do enter; file ← opened_at d; λ p. (done (stat_of p.world file.identity), p)

  -- `os.write(descriptor, chunk)`: the number of bytes written, at most those offered.
  unfoldable pub write : ℕ → Bytes → Step Process ℕ
  unfolding enter overlay
  write d chunk p =
      (do
        enter
        file ← opened_at d
        λ q.
            let count = min (env.progress p.clock) (length chunk) in
            let inode = q.world.at file.identity in
            let written = overlay file.position (take count chunk) inode.content in
            (
              done count,
              set_descriptor d (some (record file { position = file.position + count })) (record q {
                world = set_at file.identity (record inode { content = written }) q.world;
              }),
            ))
        p

  -- `os.fsync(descriptor)`
  unfoldable pub fsync : ℕ → Step Process ⊤
  unfolding enter
  fsync d = do enter; opened_at d; pure tt

  -- `os.close(descriptor)`: the descriptor is gone also when the call reports a failure.
  unfoldable pub close : ℕ → Step Process ⊤
  unfolding enter
  close d = do assign (λ p. set_descriptor d none p); enter

  abbrev unlinked : Option Identity → Step Process ⊤
  unlinked none = pure tt
  unlinked (some identity) =
      assign
        λ p. record p { world = record p.world { entry = none }; removed = identity ∷ p.removed }

  -- `self.path.unlink()`, with `FileNotFoundError` passed over
  unfoldable pub unlink : Step Process ⊤
  unfolding enter
  unlink = do enter; λ p. unlinked p.world.entry p

  created : Option Identity → ℕ → Step Process (Option ℕ)
  created (some identity) n p = (done none, p)
  created none n p =
      let made = env.fresh_identity n in
      let d = env.fresh_descriptor n in
      let named = record p.world { entry = some made } in
      (
        done (some d),
        set_descriptor d (some (record { identity = made; position = 0 }))
            (record p { world = set_at made empty_file named }),
      )

  -- `os.open` with `O_CREAT | O_EXCL`: a new descriptor, or `none` for `FileExistsError`
  unfoldable pub create : Step Process (Option ℕ)
  unfolding enter created
  create p = (do enter; λ q. created q.world.entry p.clock q) p
