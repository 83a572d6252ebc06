-- ===== src/Config.antt =====
-- internal/config/config.go: the configuration. YAML is a library's: reading a file into a configuration that
-- has the defaults, and printing one, are parameters; a duration is in nanoseconds.
use dnn_daemon.Common.{ℕ, Option, none, some, List, [], ◌∷◌}
use dnn_daemon.Common.Bytes.{Bytes, codes}

pub record CacheConfig : Type 0 where
  pub ttl : ℕ
  pub max_entries : ℕ

pub record TunConfig : Type 0 where
  pub name : Bytes
  pub mtu : ℕ

pub record DnsConfig : Type 0 where
  pub listen_addr : Bytes
  pub domain : Bytes

pub record LogConfig : Type 0 where
  pub level : Bytes
  pub file : Bytes

pub record Config : Type 0 where
  pub nodes : List Bytes
  pub cache : CacheConfig
  pub tun : TunConfig
  pub dns : DnsConfig
  pub log : LogConfig

abbrev pub default_config : Config
default_config = record {
  nodes = codes "https://node.icannot.xyz" ∷ codes "http://64.111.92.122:8080" ∷ [];
  cache = record { ttl = 60000000000; max_entries = 10000 };
  tun = record { name = codes "dnn0"; mtu = 1420 };
  dns = record { listen_addr = codes "127.0.0.1:53"; domain = codes "dnn" };
  log = record { level = codes "info"; file = codes "/var/log/dnn-daemon.log" };
}

-- `yaml.Unmarshal` into a configuration, and `yaml.Marshal`.
pub record Yaml : Type 0 where
  pub unmarshal : Bytes → Config → Option Config
  pub marshal : Config → Option Bytes

module _ (y : Yaml) where
  -- By the file, with `none` when it cannot be read.
  unfoldable pub load : Option Bytes → Option Config
  load none = none
  load (some text) = y.unmarshal text default_config

  abbrev put_file : Option Bytes → Option Bytes → Option Bytes
  put_file none file = file
  put_file (some text) file = some text

  -- The file after Save; a write is taken to succeed.
  unfoldable pub save : Config → Option Bytes → Option Bytes
  save c file = put_file (y.marshal c) file
