-- ===== src/Rpc/Adaptor.antt =====
-- `class RemoteObjectsAdaptor` (librcom/src/RemoteObjectsAdaptor.cpp), a handler that passes a call
-- on to the handler of an object. The map is a list in which an id stands once.
use librcom.Base.{Option, none, some, List, [], ◌∷◌, ◌++◌, if◌then◌else◌, Bytes, codes, equal}
use librcom.Action.{throws, Action, pure, catch}
use librcom.Rpc.{RpcError, IRpcHandler}

abbrev pub ObjectMap : Type 0 → Type 0 → Type 0
ObjectMap J S = List (Bytes × IRpcHandler J S)

-- What an exception, of the handler too, makes of the error. A handler that throws leaves the result
-- as it was.
abbrev pub object_error : {S A : Type 0} → A → Bytes → Action Bytes S (A × RpcError)
object_error result what = pure (result, record { code = 2; message = what })

module _ {J S : Type 0} where
  -- `map_.find`
  unfoldable pub find_adaptor : Bytes → ObjectMap J S → Option (IRpcHandler J S)
  find_adaptor id [] = none
  find_adaptor id ((key, handler) ∷ map) =
      let rest = find_adaptor id map in if equal key id then some handler else rest

  -- `map_.insert`, which leaves a key that is there.
  abbrev pub add_missing :
      Bytes → IRpcHandler J S → ObjectMap J S → Option (IRpcHandler J S) → ObjectMap J S
  add_missing id handler map none = map ++ (id, handler) ∷ []
  add_missing id handler map (some other) = map

  unfoldable pub add : Bytes → IRpcHandler J S → ObjectMap J S → ObjectMap J S
  add id handler map = add_missing id handler map (find_adaptor id map)

  -- `get_adaptor`
  abbrev pub adaptor_found :
      {A : Type 0}
      → Bytes
      → Option (IRpcHandler J S)
      → (IRpcHandler J S → Action Bytes S A)
      → Action Bytes S A
  adaptor_found id none call s = (throws (codes "Can't find object with given id: " ++ id), s)
  adaptor_found id (some handler) call s = call handler s

  unfoldable pub execute :
      ObjectMap J S → Bytes → Bytes → J → J → RpcError → Action Bytes S (J × RpcError)
  execute map id method params result error =
      catch
        (adaptor_found id (find_adaptor id map)
          (λ handler. handler.execute id method params result error))
        (object_error result)

  unfoldable pub execute_binary :
      ObjectMap J S → Bytes → Bytes → J → Bytes → RpcError → Action Bytes S (Bytes × RpcError)
  execute_binary map id method params result error =
      catch
        (adaptor_found id (find_adaptor id map)
          (λ handler. handler.execute_binary id method params result error))
        (object_error result)

  -- The adaptor is itself a handler.
  abbrev pub adaptor_handler : ObjectMap J S → IRpcHandler J S
  adaptor_handler map = record { execute = execute map; execute_binary = execute_binary map }
