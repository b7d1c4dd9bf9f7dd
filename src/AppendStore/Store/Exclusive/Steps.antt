-- ===== src/AppendStore/Store/Exclusive/Steps.antt =====
-- The calls of a client as steps: in every state that is reached, no chunk is open for both.
use bigarchive.Prelude.{ℕ, ◌≡◌, Bool, none, some, List, []}
use bigarchive.Exception.{Result}
use bigarchive.Fs.{Kfs}
use bigarchive.Fs.Tree.{KfsTree}
use bigarchive.AppendStore.Chunk.{Chunk}
use bigarchive.AppendStore.Types.Cache.{Cache}
use bigarchive.AppendStore.Chunk.Files
use bigarchive.AppendStore.Store.{Store, State, append, flush}
use bigarchive.AppendStore.Store.Reading.{read}
use bigarchive.AppendStore.Store.Closing.{remove, close_store, reload}
use bigarchive.AppendStore.Store.Exclusive.Writing.{CanOpen}

module _ (kfs : Kfs) (tree : KfsTree kfs) where
  open kfs use {File}

  -- The calls of a client that come to an end. `GarbageCollection`, which forgets a reader without
  -- closing it, is none of them.
  pub data Step : State kfs tree → State kfs tree → Type 0 where
    appends :
        (v : List ℕ) (st st' : State kfs tree) (res : Result (List ℕ))
        → CanOpen kfs st.0
        → append kfs tree v st ≡ some (res, st')
        → Step st st'
    reads :
        (h old got : List ℕ) (st st' : State kfs tree) (res : Result Bool)
        → read kfs tree h old st ≡ some (res, got, st')
        → Step st st'
    flushes : (st : State kfs tree) → Step st (flush kfs tree st).1
    removes : (h : List ℕ) (st : State kfs tree) → Step st (remove kfs tree h st).1
    closes : (st : State kfs tree) → Step st (close_store kfs tree st).1
    reloads : (st : State kfs tree) → Step st (reload kfs tree st)

  pub data Reach (st : State kfs tree) : State kfs tree → Type 0 where
    here : Reach st st
    next : {a b : State kfs tree} → Reach st a → Step a b → Reach st b

  -- A store that was just opened has neither readers nor a writer.
  pub record IsFresh (s : Store File) : Type 0 where
    pub no_reader : s.chunk_map ≡ []
    pub no_current : s.current_random ≡ none
    pub no_writer : s.current_append ≡ none
