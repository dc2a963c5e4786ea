-- ===== src/Handlers/Calls.antt =====
-- What the calls of the clients leave: src/zend_hook_redis.cc, src/zend_hook_memcached.cc,
-- src/zend_hook_pdo.cc, src/zend_hook_pdo_statement.cc, src/zend_hook_mysqli.cc and
-- src/zend_hook_yar.cc.
use opentelemetry_php_ext.Common.{ℕ, ◌≡◌, List, [], Option, some, Bytes, text}
use opentelemetry_php_ext.Span.{ℤ, KeyValue, kind_client, kind_server, set_string_attribute}
use opentelemetry_php_ext.Provider.{Provider, slot}
use opentelemetry_php_ext.Provider.State.{Slot, Fresh, Baggage}
use opentelemetry_php_ext.Provider.Traces.{IsOpen, IsUuid}
use opentelemetry_php_ext.Core.Globals.{Globals, World}
use opentelemetry_php_ext.Handlers.{Call, Run, span_name, command_name, add_stacktrace}
use opentelemetry_php_ext.Handlers.Traced.{Answers, Traced, child_span, around-Traced}
use opentelemetry_php_ext.Handlers.Finishing.{ok_end-Finishes}
use opentelemetry_php_ext.Handlers.Behaviours.{
  AllBehave, original-BehavesAt, redis_original-Behaves, redis_end-Finishes, memcached_end-Finishes,
  pdo_end-Finishes, statement_end-Finishes,
}
use opentelemetry_php_ext.Handlers.Peers.{IsAddress}
use opentelemetry_php_ext.Handlers.Redis.{RedisClient, redis_attributes, redis_handler}
use opentelemetry_php_ext.Handlers.Memcached.{
  MemcachedClient, memcached_attributes, memcached_handler,
}
use opentelemetry_php_ext.Handlers.Sources.{Connection}
use opentelemetry_php_ext.Handlers.Pdo.{PdoErrors, pdo_attributes, pdo_handler}
use opentelemetry_php_ext.Handlers.PdoStatement.{
  Statement, StatementErrors, statement_attributes, pdo_statement_handler,
}
use opentelemetry_php_ext.Handlers.Mysqli.{mysqli_attributes, mysqli_handler}
use opentelemetry_php_ext.Handlers.Yar.{
  yar_server_handler, yar_client_attributes, yar_client_handler,
}
use opentelemetry_php_ext.Handlers.Noticed.{yar_client_run-BehavesAt}

module _ (w : World) (fresh : Fresh) (now : ℕ) (c : Call) (run : Run) (all : AllBehave w run)
    (uuid : IsUuid fresh.span_uuid) (g : Globals) (p : Provider) (t : Slot)
    (has : g.provider ≡ some p) (is_slot : slot w.host p ≡ t) (o : IsOpen t) where
  -- The span of the call, with these attributes when it starts.
  abbrev LeavesSpan : ℕ → List KeyValue → Option Globals → Type 0
  LeavesSpan kind attributes r =
      Answers w r (Traced t o now (child_span t o fresh (span_name c) kind attributes))

  -- On an open request, around methods that return and keep the request, a call of Redis whose
  -- attributes can be computed returns: it leaves a span under the first one, with these attributes
  -- at its start, which has a status and ended at the time of the end; the other spans but the first
  -- stay, and the first keeps its ids.
  pub redis_handler-Traced :
      (is_address : IsAddress) (client : RedisClient) (attributes : List KeyValue)
      → redis_attributes is_address client g.engine.commands.redis_keys c ≡ some attributes
      → LeavesSpan kind_client attributes (redis_handler w fresh now is_address client c run g)
  unfolding redis_handler
  redis_handler-Traced is_address client attributes e =
      rw (redis_handler, e)
        (around-Traced w fresh (span_name c) kind_client attributes _ _ now
          (λ n x g p t has is_slot o _. redis_original-Behaves w run all c g p t has is_slot o)
          (redis_end-Finishes now) uuid g p t has is_slot o)

  -- The same of Memcached, whatever the arguments and the result message.
  pub memcached_handler-Traced :
      (is_address : IsAddress) (client : MemcachedClient)
      → LeavesSpan kind_client
          (memcached_attributes is_address client g.engine.commands.mec_str_keys c)
          (memcached_handler w fresh now is_address client c run g)
  unfolding memcached_handler
  memcached_handler-Traced is_address client =
      around-Traced w fresh (span_name c) kind_client _ _ _ now
        (original-BehavesAt w run all (λ h. h.engine.memcached_class.originals) (command_name c))
        (memcached_end-Finishes now client g.engine.commands.mec_hit_keys (command_name c)) uuid g p
        t has is_slot o

  -- The same of PDO, whatever the error codes, if the attributes can be computed.
  pub pdo_handler-Traced :
      (is_address : IsAddress) (dbh : Option Connection) (errors : Option PdoErrors)
      (attributes : List KeyValue)
      → pdo_attributes is_address dbh c ≡ some attributes
      → LeavesSpan kind_client attributes (pdo_handler w fresh now is_address dbh errors c run g)
  unfolding pdo_handler
  pdo_handler-Traced is_address dbh errors attributes e =
      rw (pdo_handler, e)
        (around-Traced w fresh (span_name c) kind_client attributes _ _ now
          (original-BehavesAt w run all (λ h. h.engine.pdo_class.originals) (command_name c))
          (pdo_end-Finishes now errors) uuid g p t has is_slot o)

  -- The same of a statement of PDO.
  pub pdo_statement_handler-Traced :
      (is_address : IsAddress) (stmt : Option Statement) (errors : Option StatementErrors)
      (attributes : List KeyValue)
      → statement_attributes is_address stmt c ≡ some attributes
      → LeavesSpan kind_client attributes
          (pdo_statement_handler w fresh now is_address stmt errors c run g)
  unfolding pdo_statement_handler
  pdo_statement_handler-Traced is_address stmt errors attributes e =
      rw (pdo_statement_handler, e)
        (around-Traced w fresh (span_name c) kind_client attributes _ _ now
          (original-BehavesAt w run all (λ h. h.engine.pdostatement_class.originals)
            (command_name c))
          (statement_end-Finishes now errors) uuid g p t has is_slot o)

  -- The same of mysqli, whatever the arguments.
  pub mysqli_handler-Traced :
      (is_address : IsAddress) (server : Option (Bytes × ℤ))
      → LeavesSpan kind_client
          (mysqli_attributes is_address server c)
          (mysqli_handler w fresh now is_address server c run g)
  unfolding mysqli_handler
  mysqli_handler-Traced is_address server =
      around-Traced w fresh (span_name c) kind_client _ _ _ now
        (original-BehavesAt w run all (λ h. h.engine.mysqli_originals) (command_name c))
        (ok_end-Finishes now) uuid g p t has is_slot o

  -- The same of the constructor of a Yar server, with a span of a server.
  pub yar_server_handler-Traced :
      LeavesSpan kind_server
        (set_string_attribute (add_stacktrace c.callers []) (text "rpc.system") (text "yar"))
        (yar_server_handler w fresh now c run g)
  unfolding yar_server_handler
  yar_server_handler-Traced =
      around-Traced w fresh (span_name c) kind_server _ _ _ now
        (original-BehavesAt w run all (λ h. h.engine.yar_server_class.originals) (command_name c))
        (ok_end-Finishes now) uuid g p t has is_slot o

  -- The same of a call of a Yar client, whose headers are formatted on the way.
  pub yar_client_handler-Traced :
      (sent : ℕ) (order : Baggage → Baggage) (uri : Option Bytes)
      → LeavesSpan kind_client
          (yar_client_attributes uri c)
          (yar_client_handler w fresh sent now order uri c run g)
  unfolding yar_client_handler
  yar_client_handler-Traced sent order uri =
      around-Traced w fresh (span_name c) kind_client _ _ _ now
        (yar_client_run-BehavesAt w order sent c run all) (ok_end-Finishes now) uuid g p t has
        is_slot o
