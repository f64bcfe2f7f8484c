-- ===== src/Server/Command/Access.antt =====
-- Who may call a method (rpcmethod.go).
use rupicola_go.Base.{Bool, true, false, ◌&&◌, ◌||◌, Option, ◌≡◌, arith}
use rupicola_go.Base.Dict.{Dict}
use rupicola_go.Rpc.Value.{Any, rpc}
use rupicola_go.Rpc.Registry.{Request, failure}
use rupicola_go.Method.Def.{MethodDef}
use rupicola_go.Server.Command.{
  RpcContext, Command, System, prepared, make_command, prepare_command, invoke,
  rpc_unauthorized_error,
}

module _ (sys : System) where
  -- A process is prepared only for a caller with valid credentials or, of a private method, for one
  -- that its bind point lets in from the loopback; and it is the program of the method under the
  -- user of the method.
  pub prepare_command_safe :
      (m : MethodDef) (ctx : RpcContext) (params : Option (Dict Any)) (c : Command)
      → prepare_command sys m ctx params ≡ prepared c
      → ((ctx.is_authorized || (ctx.allow_private && m.is_private)) ≡ true)
        × (c.exec ≡ m.exec)
        × (c.run_as ≡ m.run_as)
  unfolding prepare_command make_command
  prepare_command_safe m ctx params c h = ground arith

  -- Invoke answers a caller without valid credentials that may not call the method as a private one
  -- with the error Unauthorized, whatever the parameters.
  pub invoke_unauthorized :
      (m : MethodDef) (r : Request RpcContext)
      → r.user_data.is_authorized ≡ false
      → (r.user_data.allow_private && m.is_private) ≡ false
      → invoke sys m r ≡ failure (rpc rpc_unauthorized_error)
  unfolding invoke prepare_command
  invoke_unauthorized m r h k = ground arith

  -- For a caller with valid credentials it makes no difference whether the method is private or the
  -- call comes from the loopback.
  pub prepare_command_authorized :
      (m : MethodDef) (ctx : RpcContext) (params : Option (Dict Any)) (p local : Bool)
      → ctx.is_authorized ≡ true
      → prepare_command sys
          (record m { is_private = p })
          (record ctx { allow_private = local })
          params
        ≡ prepare_command sys m ctx params
  unfolding prepare_command make_command
  prepare_command_authorized m ctx params p local h = ground arith
