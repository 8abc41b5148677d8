-- ===== src/Core/ObjectCache.antt =====
-- src/core/cache/object_cache.rs: the agents by the hash of their name, each call atomic for its key.
use scouter_server_rust.Common.{
  ℕ, Bool, true, false, ◌&&◌, Option, none, some, List, [], ◌∷◌, length, if◌then◌else◌,
}
use scouter_server_rust.Word.{Bytes}
use scouter_server_rust.Assoc as Assoc
use scouter_server_rust.Assoc.{find, insert}
use scouter_server_rust.Protocol.Value.{bytes_eq}
use scouter_server_rust.Protocol.Pack.{ObjectPack}
use scouter_server_rust.Core.Queue.{filter}

abbrev pub ObjectCache : Type 0
ObjectCache = List (ℕ × ObjectPack)

unfoldable pub put : ObjectCache → ObjectPack → ObjectCache
put objects pack = insert pack.obj_hash pack objects

unfoldable pub get : ObjectCache → ℕ → Option ObjectPack
get objects obj_hash = find obj_hash objects

unfoldable pub contains : ObjectCache → ℕ → Bool
contains objects obj_hash = elim (find obj_hash objects) [ none ↦ false | some pack ↦ true ]

unfoldable pub remove : ObjectCache → ℕ → ObjectCache × Option ObjectPack
remove objects obj_hash = (Assoc.remove obj_hash objects, find obj_hash objects)

unfoldable pub get_all_objects : ObjectCache → List ObjectPack
get_all_objects [] = []
get_all_objects ((h, pack) ∷ objects) = pack ∷ get_all_objects objects

unfoldable pub get_live_objects : ObjectCache → List ObjectPack
get_live_objects objects = filter (λ pack. pack.alive) (get_all_objects objects)

unfoldable pub get_live_objects_by_type : ObjectCache → Bytes → List ObjectPack
get_live_objects_by_type objects obj_type =
    filter (λ pack. pack.alive && bytes_eq pack.obj_type obj_type) (get_all_objects objects)

unfoldable pub get_live_obj_hashes : ObjectCache → List ℕ
get_live_obj_hashes [] = []
get_live_obj_hashes ((h, pack) ∷ objects) =
    let rest = get_live_obj_hashes objects in if pack.alive then h ∷ rest else rest

unfoldable pub size : ObjectCache → ℕ
size objects = length objects
