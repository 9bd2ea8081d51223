-- ===== src/Rbac/Storage/Refinement.antt =====
-- `CachedStorage` against the storage behind it (internal/rbac/storage.go), over sequences of calls,
-- each of which ends before the next begins.
use codeai.Base.{ℕ, ◌≡◌, refl, ap, ap₂, ◌∙◌, String, List, [], ◌∷◌, Option}
use codeai.Base.Dict.{lookup, lookup-delete_cases}
use codeai.Rbac.Permission.{Error}
use codeai.Rbac.Role.{Role}
use codeai.Rbac.Storage.{
  Outcome, MemoryStorage, get_role, list_roles, cached_list_roles, save_role, delete_role,
  CachedStorage, new_cached_storage, cached_get_role, cached_save_role, cached_delete_role,
  invalidate_cache, invalidate_role,
}
use codeai.Rbac.Storage.Coherence.{
  IsCoherent, new_cached_storage-IsCoherent, cached_get_role-IsTransparent,
  cached_save_role-IsCoherent, cached_delete_role-IsCoherent, written-backend,
}

pub data Call : Type 0 where
  gets : String → ℕ → ℕ → Call
  lists : Call
  saves : Role → Call
  deletes : String → Call
  invalidates : Call
  invalidates_role : String → Call

pub data Answer : Type 0 where
  got : Outcome → Answer
  listed : List Role → Answer
  wrote : Option Error → Answer
  done : Answer

unfoldable pub answer : MemoryStorage → Call → MemoryStorage × Answer
answer b (gets name now later) = (b, got (get_role b name))
answer b lists = (b, listed (list_roles b))
answer b (saves role) = let (b', e) = save_role b role in (b', wrote e)
answer b (deletes name) = let (b', e) = delete_role b name in (b', wrote e)
answer b invalidates = (b, done)
answer b (invalidates_role name) = (b, done)

unfoldable pub cached_answer : CachedStorage → Call → CachedStorage × Answer
cached_answer s (gets name now later) =
    let (s', o) = cached_get_role s name now later in (s', got o)
cached_answer s lists = (s, listed (cached_list_roles s))
cached_answer s (saves role) = let (s', e) = cached_save_role s role in (s', wrote e)
cached_answer s (deletes name) = let (s', e) = cached_delete_role s name in (s', wrote e)
cached_answer s invalidates = (invalidate_cache s, done)
cached_answer s (invalidates_role name) = (invalidate_role s name, done)

unfoldable pub answers : MemoryStorage → List Call → List Answer
answers b [] = []
answers b (c ∷ cs) = (answer b c).1 ∷ answers (answer b c).0 cs

unfoldable pub cached_answers : CachedStorage → List Call → List Answer
cached_answers s [] = []
cached_answers s (c ∷ cs) = (cached_answer s c).1 ∷ cached_answers (cached_answer s c).0 cs

pub record Agrees (s : CachedStorage) (c : Call) : Type 0 where
  pub same_answer : (cached_answer s c).1 ≡ (answer s.backend c).1
  pub same_backend : (cached_answer s c).0.backend ≡ (answer s.backend c).0
  pub coherent : IsCoherent (cached_answer s c).0

cached_answer-Agrees : (s : CachedStorage) (c : Call) → IsCoherent s → Agrees s c
unfolding cached_answer answer cached_list_roles invalidate_cache invalidate_role lookup
    cached_save_role cached_delete_role
cached_answer-Agrees s (gets name now later) c =
    let t = cached_get_role-IsTransparent s name now later c in
    record {
      same_answer = ap got t.same_outcome;
      same_backend = t.same_backend;
      coherent = t.still_coherent;
    }
cached_answer-Agrees s lists c = record { same_answer = refl; same_backend = refl; coherent = c }
cached_answer-Agrees s (saves role) c =
    let w = written-backend s role.name (save_role s.backend role) in
    record {
      same_answer = ap wrote w.1;
      same_backend = w.0;
      coherent = cached_save_role-IsCoherent s role c;
    }
cached_answer-Agrees s (deletes name) c =
    let w = written-backend s name (delete_role s.backend name) in
    record {
      same_answer = ap wrote w.1;
      same_backend = w.0;
      coherent = cached_delete_role-IsCoherent s name c;
    }
cached_answer-Agrees s invalidates c = record {
  same_answer = refl;
  same_backend = refl;
  coherent = λ k d h. cc;
}
cached_answer-Agrees s (invalidates_role name) c = record {
  same_answer = refl;
  same_backend = refl;
  coherent = λ k d h. c k d (lookup-delete_cases name k s.cache h).1;
}

cached_answers-answers :
    (s : CachedStorage) (cs : List Call) → IsCoherent s → cached_answers s cs ≡ answers s.backend cs
unfolding cached_answers answers
cached_answers-answers s [] c = refl
cached_answers-answers s (k ∷ cs) c =
    let a = cached_answer-Agrees s k c in
    ap₂ (λ x xs. x ∷ xs) a.same_answer
      (cached_answers-answers (cached_answer s k).0 cs a.coherent
        ∙ ap (λ b. answers b cs) a.same_backend)

-- Whatever calls of GetRole, ListRoles, SaveRole, DeleteRole, InvalidateCache and InvalidateRole
-- are made, one after another, and whenever the clock is read, a memory storage behind a new cache
-- gives the answers of the storage alone.
pub new_cached_storage-answers :
    (b : MemoryStorage) (cs : List Call) → cached_answers (new_cached_storage b) cs ≡ answers b cs
unfolding new_cached_storage
new_cached_storage-answers b cs =
    cached_answers-answers (new_cached_storage b) cs (new_cached_storage-IsCoherent b)
