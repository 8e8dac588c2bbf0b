-- ===== src/Api/Equal.antt =====
-- Decisions of equality for the records of the API, for reflect.DeepEqual.
use vlanman.Prelude.Equality.{String-discrete, ℤ-discrete}
use vlanman.Kube.{Affinity}
use vlanman.Api.{Gateway, IpMapping, VlanNetworkPool, VlanNetworkSpec}

pub Affinity-discrete : Discrete Affinity
Affinity-discrete = hlevel String-discrete

pub Gateway-discrete : Discrete Gateway
Gateway-discrete = hlevel String-discrete

pub IpMapping-discrete : Discrete IpMapping
IpMapping-discrete = hlevel String-discrete

VlanNetworkPool-discrete : Discrete VlanNetworkPool
VlanNetworkPool-discrete = hlevel String-discrete

pub VlanNetworkSpec-discrete : Discrete VlanNetworkSpec
VlanNetworkSpec-discrete =
    hlevel (
      ℤ-discrete, Gateway-discrete, Affinity-discrete, VlanNetworkPool-discrete, IpMapping-discrete,
    )
