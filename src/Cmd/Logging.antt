-- ===== src/Cmd/Logging.antt =====
-- cmd/grpcat/middlewares/logging.go. The time that a request took is left out of its line.
use g_rpcat.Base.{none, some}
use g_rpcat.Middleware.Chain.{
  Handler, return, next, look, print, panics, request_line, response_line,
}

-- The second line reads the request again, after the rest of the chain.
unfoldable pub logging_handle : {MD : Type 0} → Handler MD
logging_handle = look λ ctx. elim ctx.request [
  | none ↦ panics
  | some req ↦ print (request_line req.service req.method) (
      next (
        look λ ctx'. elim ctx'.request [
          | none ↦ panics
          | some req' ↦ print (response_line req'.service req'.method) return
        ]))
]
