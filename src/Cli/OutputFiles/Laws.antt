-- ===== src/Cli/OutputFiles/Laws.antt =====
-- What is asked of the calls on `std::ofstream` and `std::filesystem` that the commands make: which
-- files a call can change, and what a call that succeeds has done. Any of them may fail.
use securekit.Prelude.{
  ◌≡◌, ◌≢◌, sym, ap, ◌∙◌, some≢none, true, false, Option, none, some, List, ℕ, [], ◌++◌,
}
use securekit.FileSystem.{FileSystem, FilePath}
use securekit.Cli.OutputFiles.{OutputStreams}

-- `contents` is what a reader finds under a path. A stream is attached while it is open under the
-- path by which it was opened, and `written` is what was written to it.
pub record IsOutputStreams (os : FileSystem) (streams : OutputStreams os) : Type 1 where
  pub contents : os.System → FilePath → Option (List ℕ)
  pub stream_path : streams.Stream → FilePath
  pub written : streams.Stream → os.System → List ℕ
  pub Attached : streams.Stream → os.System → Type 0
  pub exists_false :
      (p : FilePath) (s : os.System) → os.exists p s ≡ some false → contents s p ≡ none
  pub open_some :
      (p : FilePath) (s s' : os.System) (f : streams.Stream)
      → streams.open_truncated p s ≡ (some f, s')
      → (stream_path f ≡ p) × Attached f s' × (written f s' ≡ [])
  pub open_frame :
      (p : FilePath) (s : os.System) (q : FilePath)
      → q ≢ p
      → contents (streams.open_truncated p s).1 q ≡ contents s q
  pub put_frame :
      (x : List ℕ) (f : streams.Stream) (s : os.System) (q : FilePath)
      → q ≢ stream_path f
      → contents (streams.put x f s).1 q ≡ contents s q
  pub put_good :
      (x : List ℕ) (f : streams.Stream) (s s' : os.System)
      → streams.put x f s ≡ (true, s')
      → Attached f s
      → Attached f s' × (written f s' ≡ written f s ++ x)
  pub close_frame :
      (f : streams.Stream) (s : os.System) (q : FilePath)
      → q ≢ stream_path f
      → contents (streams.close_stream f s).1 q ≡ contents s q
  pub close_good :
      (f : streams.Stream) (s s' : os.System)
      → streams.close_stream f s ≡ (true, s')
      → Attached f s
      → contents s' (stream_path f) ≡ some (written f s)
  pub link_done :
      (p q : FilePath) (s s' : os.System)
      → streams.create_hard_link p q s ≡ (true, s')
      → (contents s q ≡ none)
        × (contents s' q ≡ contents s p)
        × ((r : FilePath) → r ≢ q → contents s' r ≡ contents s r)
  pub remove_frame :
      (p : FilePath) (s : os.System) (q : FilePath)
      → q ≢ p
      → contents (os.remove p s) q ≡ contents s q

module _ (os : FileSystem) (streams : OutputStreams os) (law : IsOutputStreams os streams) where
  open law use {contents}

  -- Every file keeps its contents.
  abbrev pub Spares : os.System → os.System → Type 0
  Spares s s' = (q : FilePath) (c : List ℕ) → contents s q ≡ some c → contents s' q ≡ some c

  pub frame-Spares :
      (p : FilePath) (s s' : os.System)
      → contents s p ≡ none
      → ((q : FilePath) → q ≢ p → contents s' q ≡ contents s q)
      → Spares s s'
  frame-Spares p s s' absent frame q c h =
      frame q (λ e. some≢none (sym h ∙ ap (contents s) e ∙ absent)) ∙ h
