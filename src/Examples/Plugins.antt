-- ===== src/Examples/Plugins.antt =====
-- The plugin for LinuxCNC in a shell that opens every pipe.
use cncremote.Prelude.{ℕ, suc, pos, negsuc, ◌≡◌, refl, true, false, codes, [], some, ok}
use cncremote.Sample.{whole_numbers, Tree, trees}
use cncremote.Plugin.{Shell, Plugin, start}
use cncremote.Client.Calls.{new_call, call}
use cncremote.Plugin.Laws.{start-impatient}

-- Its state is the time.
abbrev shell : Shell ℕ Tree
shell = record {
  popen = λ cmd t. (true, suc t);
  feof = λ t. false;
  fgets = λ t. (some (codes "starting"), suc t);
  pclose = λ t. (pos 0, t);
  kill = λ t. t;
  connect = λ t. suc t;
  version = λ t. (record { refused = some (codes "refused"); ticks = [] }, suc t);
  now = λ t. t;
  later = λ t. suc t;
  second = 1000;
}

abbrev plugin : Plugin ℕ
plugin = record {
  server_path = codes "cncremote.sh";
  exec = false;
  exec_ret = pos 0;
  log = [];
  outside = 5;
}

start-impatient_example :
    start trees shell 9 plugin
    ≡ (ok false, record plugin { exec = true; exec_ret = negsuc 0; outside = 8 })
unfolding call new_call
start-impatient_example =
    start-impatient trees shell 8 plugin (codes "refused") 7 8 (refl, refl) refl refl
