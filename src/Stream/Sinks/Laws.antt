-- ===== src/Stream/Sinks/Laws.antt =====
-- The staging writer loses no row and keeps its buffer under the limit.
use mathlib.Core.List.{append_assoc, append-nil}
use agentic_fraud_decisionin.Common.{◌≡◌, refl, sym, Bool, true, false, List, [], ◌∷◌, ◌++◌}
use agentic_fraud_decisionin.Stream.Sinks.{SnowflakeRow, S3Writer, add_batch, flush}

-- The rows of the files, in the order in which they were written.
abbrev pub in_files : List (List SnowflakeRow) → List SnowflakeRow
in_files [] = []
in_files (f ∷ older) = in_files older ++ f

-- Every row that was handed to the writer and is not lost.
abbrev pub held : S3Writer → List SnowflakeRow
held w = in_files w.files ++ w.buffer

pub held-flush : (put : Bool) (w : S3Writer) → held (flush put w).0 ≡ held w
unfolding flush
held-flush put w = go put w w.buffer refl
  where
    go :
        (put : Bool) (w : S3Writer) (rows : List SnowflakeRow)
        → w.buffer ≡ rows
        → held (flush put w).0 ≡ held w
    go put w [] e = rw e refl
    go true w (r ∷ rest) e = rw e (append-nil (in_files w.files ++ (r ∷ rest)))
    go false w (r ∷ rest) e = rw e refl

pub held-add_batch :
    (rows : List SnowflakeRow) (w : S3Writer) → held (add_batch rows w) ≡ held w ++ rows
unfolding add_batch
held-add_batch rows w = sym (append_assoc (in_files w.files) w.buffer rows)

-- A flush that returns leaves nothing in the buffer.
pub flush-buffer :
    (put : Bool) (w : S3Writer) → (flush put w).1 ≡ true → (flush put w).0.buffer ≡ []
unfolding flush
flush-buffer put w = go put w w.buffer refl
  where
    go :
        (put : Bool) (w : S3Writer) (rows : List SnowflakeRow)
        → w.buffer ≡ rows
        → (flush put w).1 ≡ true
        → (flush put w).0.buffer ≡ []
    go put w [] e = rw e λ h. refl
    go true w (r ∷ rest) e = rw e λ h. refl
    go false w (r ∷ rest) e = rw e λ h. cc
