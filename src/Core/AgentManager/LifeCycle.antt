-- ===== src/Core/AgentManager/LifeCycle.antt =====
-- Which agents are alive after a pack and after a check.
use scouter_server_rust.Common.{
  ℕ, ◌≡◌, ◌≢◌, refl, sym, ap, subst, ◌∙◌, arith, Bool, true, false, Option, none, some, [], ◌∷◌,
  ◌==◌, ==_iff, if◌then◌else◌, Bool-cases, inl, inr, All,
}
use scouter_server_rust.Assoc.{
  find, find_nil, some-inj, some-ne-none, Apart, find_here, find_below, find-insert,
  find-insert_other,
}
use scouter_server_rust.Protocol.Pack.{ObjectPack}
use scouter_server_rust.Core.ObjectCache as Cache
use scouter_server_rust.Core.ObjectCache.{ObjectCache, get_all_objects}
use scouter_server_rust.Core.AgentManager.{
  with_hash, active, is_silent, mark_silent, check_inactive,
}

-- Every agent once, under the hash of its pack.
pub record IsValid (objects : ObjectCache) : Type 0 where
  pub apart : Apart objects
  pub keyed : All (λ (h, pack). pack.obj_hash ≡ h) objects

-- After a pack, its agent is alive with the time of the pack, and every other agent as before.
pub get-active :
    (objects : ObjectCache) (now : ℕ) (pack : ObjectPack)
    → (Cache.get (active objects now pack) (with_hash pack).obj_hash
        ≡ some (record (with_hash pack) { wakeup = now; alive = true }))
      × ((h : ℕ)
          → h ≢ (with_hash pack).obj_hash
          → Cache.get (active objects now pack) h ≡ Cache.get objects h)
unfolding active Cache.get Cache.put
get-active objects now pack = (
  find-insert (with_hash pack).obj_hash _ objects,
  λ h ne. find-insert_other (with_hash pack).obj_hash h _ objects ne,
)

abbrev mark : ℕ → ObjectPack → ObjectCache → ObjectCache
mark now pack objects =
    if is_silent now pack then Cache.put objects (record pack { alive = false }) else objects

find-mark_other :
    (now h : ℕ) (pack : ObjectPack) (objects : ObjectCache)
    → h ≢ pack.obj_hash
    → find h (mark now pack objects) ≡ find h objects
unfolding Cache.put
find-mark_other now h pack objects ne = elim (Bool-cases (is_silent now pack)) [
  | inl silent ↦ rw silent (find-insert_other pack.obj_hash h _ objects ne)
  | inr heard ↦ rw heard refl
]

find-mark :
    (now : ℕ) (pack : ObjectPack) (objects : ObjectCache)
    → find pack.obj_hash (mark now pack objects) ≡ (
        if is_silent now pack
        then some (record pack { alive = false })
        else find pack.obj_hash objects)
unfolding Cache.put
find-mark now pack objects = elim (Bool-cases (is_silent now pack)) [
  | inl silent ↦ rw silent (find-insert pack.obj_hash (record pack { alive = false }) objects)
  | inr heard ↦ rw heard refl
]

-- Agents that are not in the list that the loop goes through.
mark_silent_other :
    (now h : ℕ) (m : ObjectCache) (objects : ObjectCache)
    → All (λ (j, pack). pack.obj_hash ≡ j) m
    → find h m ≡ none
    → find h (mark_silent now (get_all_objects m) objects) ≡ find h objects
unfolding mark_silent get_all_objects
mark_silent_other now h [] objects keyed new = refl
mark_silent_other now h ((j, pack) ∷ m) objects (e, keyed) new = elim (Bool-cases (j == h)) [
  | inl here ↦ absurd (some-ne-none (sym (find_here h j pack m here) ∙ new))
  | inr other ↦
      mark_silent_other now h m (mark now pack objects) keyed
        (sym (find_below h j pack m other) ∙ new)
      ∙ find-mark_other now h pack objects (ground arith)
]

mark_silent_here :
    (now h : ℕ) (m : ObjectCache) (objects : ObjectCache) (p : ObjectPack)
    → IsValid m
    → find h m ≡ some p
    → find h (mark_silent now (get_all_objects m) objects)
      ≡ (if is_silent now p then some (record p { alive = false }) else find h objects)
unfolding mark_silent get_all_objects
mark_silent_here now h [] objects p v there = absurd (find_nil h there)
mark_silent_here now h ((j, pack) ∷ m) objects p v there = elim (Bool-cases (j == h)) [
  | inl here ↦
      let at_h : j ≡ h = (==_iff j h).0 here in
      let below : find h m ≡ none = ap (λ (k : ℕ). find k m) (sym at_h) ∙ v.apart.0 in
      mark_silent_other now h m (mark now pack objects) v.keyed.1 below
      ∙ subst
          (λ k.
            find k (mark now pack objects)
            ≡ (if is_silent now pack then some (record pack { alive = false }) else find k objects))
          (v.keyed.0 ∙ at_h) (find-mark now pack objects)
      ∙ ap
          (λ (q : ObjectPack).
            if is_silent now q then some (record q { alive = false }) else find h objects)
          (some-inj (sym (find_here h j pack m here) ∙ there))
  | inr other ↦
      mark_silent_here now h m (mark now pack objects) p
        (record { apart = v.apart.1; keyed = v.keyed.1 })
        (sym (find_below h j pack m other) ∙ there)
      ∙ ap
          (λ (o : Option ObjectPack).
            if is_silent now p then some (record p { alive = false }) else o)
          (find-mark_other now h pack objects (ground (arith, v.keyed.0)))
]

if-some : (b : Bool) (x y : ObjectPack) → (if b then some x else some y) ≡ some (if b then x else y)
if-some true x y = refl
if-some false x y = refl

-- After a check, an agent that was silent for more than the dead time is there and not alive, and
-- every other agent is as before, when every agent is there once, under the hash of its pack.
pub get-check_inactive :
    (objects : ObjectCache) (now h : ℕ) (p : ObjectPack)
    → IsValid objects
    → Cache.get objects h ≡ some p
    → Cache.get (check_inactive objects now) h
      ≡ some (if is_silent now p then record p { alive = false } else p)
unfolding check_inactive Cache.get
get-check_inactive objects now h p v there =
    mark_silent_here now h objects objects p v there
    ∙ rw there (if-some (is_silent now p) (record p { alive = false }) p)
