-- ===== src/Metrics/Gauges.antt =====
-- The gauges of the host in `Metrics::render` of service/src/metrics.rs, from the texts of two files
-- of /proc.
use ahara_collector.Prelude.{
  Option, none, some, List, [], ◌∷◌, ◌++◌, Text, codes, ◌==◌, if◌then◌else◌, is_empty,
}
use ahara_collector.Prelude.Parsing.{split, words, starts_with}

-- /proc/loadavg and /proc/meminfo, where they can be read.
pub record Host : Type 0 where
  pub loadavg : Option Text
  pub meminfo : Option Text

-- A line without the carriage return at its end.
unfoldable pub without_return : Text → Text
without_return [] = []
without_return (c ∷ []) = if c == 13 then [] else c ∷ []
without_return (c ∷ d ∷ s) = c ∷ without_return (d ∷ s)

-- `lines`: there is none behind the last line feed.
unfoldable pub text_lines : List Text → List Text
unfolding without_return
text_lines [] = []
text_lines (line ∷ []) = if is_empty line then [] else without_return line ∷ []
text_lines (line ∷ next ∷ lines) = without_return line ∷ text_lines (next ∷ lines)

unfoldable pub find_line : Text → List Text → Option Text
unfolding starts_with
find_line label [] = none
find_line label (line ∷ lines) = if starts_with label line then some line else find_line label lines

unfoldable pub load_gauge : Option Text → Text
unfolding words
load_gauge none = []
load_gauge (some loadavg) = elim (words loadavg) [
  | [] ↦ []
  | load1 ∷ _ ↦ codes "collector_host_load1 " ++ load1 ++ codes "\n"
]

-- The second word of a line.
unfoldable pub line_gauge : Text → Option Text → Text
unfolding words
line_gauge metric none = []
line_gauge metric (some line) = elim (words line) [
  | _ ∷ kb ∷ _ ↦ metric ++ codes " " ++ kb ++ codes "\n"
  | _ ↦ []
]

unfoldable pub memory_gauge : Text → Text → Option Text → Text
unfolding line_gauge find_line text_lines split
memory_gauge label metric none = []
memory_gauge label metric (some meminfo) =
    line_gauge metric (find_line label (text_lines (split 10 meminfo)))

unfoldable pub host_gauges : Host → Text
unfolding load_gauge memory_gauge
host_gauges host =
    load_gauge host.loadavg
    ++ memory_gauge (codes "MemTotal:") (codes "collector_host_mem_total_kb") host.meminfo
    ++ memory_gauge (codes "MemAvailable:") (codes "collector_host_mem_available_kb") host.meminfo
