-- ===== src/Tests/Records.antt =====
-- A connection with a root record and a subdomain.
use dnn_daemon.Common.{◌≡◌, refl}
use dnn_daemon.Common.Bytes.{Bytes, codes, equal}
use dnn_daemon.Resolver.Json.{Json, str, arr, obj, Items, nil, cons, Fields, end, field, get}
use dnn_daemon.Resolver.Connection.{
  extract_connection_info, record_ip, add_records, add_record, add_address,
}
use dnn_daemon.Resolver.Records.{IsDeclared, extract_connection_info-IsDeclared}
use dnn_daemon.Tests.Sample.{sample_runtime}

abbrev a_record : Bytes → Bytes → Json
a_record name ip = obj (
    field (codes "type") (str (codes "A"))
      (field (codes "name") (str name) (field (codes "value") (str ip) end)))

abbrev records : Items
records = cons (a_record (codes "@") (codes "192.0.2.1")) (
    cons (a_record (codes "blossom") (codes "192.0.2.8"))
      (cons (a_record (codes "@") (codes "192.0.2.7")) nil))

abbrev connection : Fields
connection = field (codes "records") (arr records) end

last_root : (extract_connection_info connection).ip ≡ codes "192.0.2.7"
unfolding extract_connection_info add_records add_record add_address record_ip get equal
last_root = refl

extract_connection_info-IsDeclared_example : IsDeclared records (extract_connection_info connection)
extract_connection_info-IsDeclared_example =
    extract_connection_info-IsDeclared connection records (unfold get equal in refl)
