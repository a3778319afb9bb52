-- ===== src/Checkers/Oracle/Mainnet.antt =====
-- `CanonicalFeedMap::default_mainnet` of oracle_cache.rs: the keys are its base58 texts, decoded.
use ciel_sol.Base.{List, [], ◌∷◌, String}
use ciel_sol.Checkers.Json.{Pubkey}
use ciel_sol.Checkers.Oracle.Feeds.{CanonicalFeedMap, empty, register}

abbrev pub Feed : Type 0
Feed = String × Pubkey × Pubkey

abbrev pub feeds : List Feed
feeds =
    (
      "SOL/USD", 0xec81105112a257d61df4cf5f13ee0a1b019197c8c5343b4f2a7ec8846ae22c1a,
      0xef0d8b6fda2ceba41da15d4095d1da392a0d2f8ed0c6c7bc0f4cfac8c280b56d,
    )
    ∷ (
      "BTC/USD", 0x6e8c497783de005964f692d15bc4d51022b1758ccc00842984463f0b7fdffe9f,
      0xe62df6c8b4a85fe1a67db44dc12de5db330f7ac66b72dc658afedf0f4a415b43,
    )
    ∷ (
      "ETH/USD", 0xf339767030404ff95a7fc45537a69f9cdd5fb3c58a9dbc67c72a144adf7f0248,
      0xff61491a931112ddf1bd8147cd1b641375f79f5825126d665480874634fd0ace,
    )
    ∷ (
      "USDC/USD", 0x9f769112b67f13f1faee15615b2fcada36582feba5bb9d82c50870f9741f25d9,
      0xeaa020c61cc479712813461ce153894a96a6c00b21ed0cfc2798d1f9a9e9c94a,
    )
    ∷ (
      "USDT/USD", 0x2b89b9dc8fdf9f34709a5b106b472f0f39bb6ca9ce04b0fd7f2e971688e2e53b,
      0x2b89b9dc8fdf9f34709a5b106b472f0f39bb6ca9ce04b0fd7f2e971688e2e53b,
    )
    ∷ (
      "BONK/USD", 0xb4eacbe402ae9165c2ab7dfcdbe5044d27f284106f88a90bfddefa5fbff60ca0,
      0x72b021217ca3fe68922a19aaf990109cb9d84e9ad004b4d16b60a834e88e4346,
    )
    ∷ (
      "JTO/USD", 0xd9f60fe2a00b1a567ef893bc320a0b9f250fb77cf0d075be86415bddcf943aa0,
      0x61ca3f110915af36104573608c75b56a0758cbef2cb34551cf02cad9a63ed00c,
    )
    ∷ (
      "PYTH/USD", 0x351b5690adf7dd0cc998e80a432ff6d57381317542fc8976cdef8fc85a617845,
      0x0bbf28e9a841a1cc788f6a361b17ca072d0ea3098a1e5df1c3922d06719579ff,
    )
    ∷ (
      "JUP/USD", 0x0a0408d619e9380abad35060f9192039ed5042fa6f82301d0e48bb52be830996,
      0x0a0408d619e9380abad35060f9192039ed5042fa6f82301d0e48bb52be830996,
    )
    ∷ (
      "RAY/USD", 0x91568baa8beb53db23eb3fb7f22c6e8bd303d103919e19733f2bb642d3e7987a,
      0x91568baa8beb53db23eb3fb7f22c6e8bd303d103919e19733f2bb642d3e7987a,
    )
    ∷ (
      "WIF/USD", 0x4ca4beeca86f0d164160323817a4e42b10010a724c2217c6ee41b54cd4cc61fc,
      0x4ca4beeca86f0d164160323817a4e42b10010a724c2217c6ee41b54cd4cc61fc,
    )
    ∷ (
      "RNDR/USD", 0xab7347771135fc733f8f38db462ba085ed3309955f42554a14fa13e855ac0e2f,
      0xab7347771135fc733f8f38db462ba085ed3309955f42554a14fa13e855ac0e2f,
    )
    ∷ (
      "HNT/USD", 0x649fdd7ec08e8e2a20f425729854e90293dcbe2376abc47197a14da6ff339756,
      0x649fdd7ec08e8e2a20f425729854e90293dcbe2376abc47197a14da6ff339756,
    )
    ∷ (
      "ORCA/USD", 0x37505261e557e251290b8c8899453064e8d760ed5c65a779726f2490980da74c,
      0x37505261e557e251290b8c8899453064e8d760ed5c65a779726f2490980da74c,
    )
    ∷ (
      "MNGO/USD", 0x5b70af49d639eefe11f20df47a0c0760123291bb5bc55053faf797d1ff905983,
      0x5b70af49d639eefe11f20df47a0c0760123291bb5bc55053faf797d1ff905983,
    )
    ∷ (
      "MSOL/USD", 0xc2289a6a43d2ce91c6f55caec370f4acc38a2ed477f58813334c6d03749ff2a4,
      0xc2289a6a43d2ce91c6f55caec370f4acc38a2ed477f58813334c6d03749ff2a4,
    )
    ∷ (
      "DRIFT/USD", 0x0f7db98f88f7996278edbece14ebb567d9db478531503e9c88c51b961d62c8f4,
      0x0f7db98f88f7996278edbece14ebb567d9db478531503e9c88c51b961d62c8f4,
    )
    ∷ (
      "W/USD", 0x02a1f0119e4fd8e8ee6ecbe6348ba5fee40e45c5fc8814760a42416995cf8529,
      0x02a1f0119e4fd8e8ee6ecbe6348ba5fee40e45c5fc8814760a42416995cf8529,
    )
    ∷ (
      "JITOSOL/USD", 0xde5341fe69b5560fd548aa751e2864b3a1cf4cdc57a68cd2045cdbef84e41a15,
      0xde5341fe69b5560fd548aa751e2864b3a1cf4cdc57a68cd2045cdbef84e41a15,
    )
    ∷ (
      "TENSOR/USD", 0x9f998d20bec8c13b5b7eb9ab4efdd739388c43c336f25cd8bf03f85681e9c92e,
      0x9f998d20bec8c13b5b7eb9ab4efdd739388c43c336f25cd8bf03f85681e9c92e,
    )
    ∷ []

-- `for &(asset, sb, pyth) in feeds { map.register(asset, sb, pyth) }`
unfoldable pub register_all : CanonicalFeedMap → List Feed → CanonicalFeedMap
register_all m [] = m
register_all m ((asset, sb, py) ∷ rest) = register_all (register m asset sb py) rest

unfoldable pub default_mainnet : CanonicalFeedMap
unfolding register_all
default_mainnet = register_all empty feeds
